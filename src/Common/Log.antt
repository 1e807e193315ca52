-- ===== src/Common/Log.antt =====
-- rocket/common/log.h and log.cc: levels, the two buffers of `Logger`, and the thread of each
-- `AsyncLogger`, whose loop is a turn, in one step, for each batch. `writes` is what a thread has
-- appended to its files, in order; `tell` stands for `ftell` of an open file after these writes. Files
-- can be opened and written, and their greatest size is not negative. The timer, the signal handlers
-- and the clock call from outside. A logger that is not asynchronous has no threads; its `async` and
-- `app_async` stand for nothing, and `syncLoop` is not called on it.
pub mod Order
pub mod Ending
pub mod Stopped
pub mod Signal
pub mod Start
pub mod Steps
mod Tests
use my_rocket.Base.{
  ℕ, suc, ◌+◌, ◌≡◌, ◌≢◌, Bool, true, false, not, ◌&&◌, List, [], ◌∷◌, ◌++◌, if◌then◌else◌, ◌==◌,
  ltb, leb, Option, none, some, Text, same, decimal,
}
use my_rocket.Rpc.Dispatcher.{RunTime, codes}

pub data LogLevel : Type 0 where
  unknown debug info error : LogLevel

abbrev pub rank : LogLevel → ℕ
rank unknown = 0
rank debug = 1
rank info = 2
rank error = 3

unfoldable pub log_level_to_string : LogLevel → Text
log_level_to_string debug = codes "DEBUG"
log_level_to_string info = codes "INFO"
log_level_to_string error = codes "ERROR"
log_level_to_string unknown = codes "UNKNOWN"

unfoldable pub string_to_log_level : Text → LogLevel
string_to_log_level s =
    if same s (codes "DEBUG")
    then debug
    else if same s (codes "INFO")
    then info
    else if same s (codes "ERROR")
    then error
    else unknown

-- Whether DEBUGLOG, INFOLOG or ERRORLOG logs, and the macros for the application.
unfoldable pub is_logged : LogLevel → LogLevel → Bool
is_logged set debug = not (rank set == 0) && leb (rank set) 1
is_logged set level = leb (rank set) (rank level)

unfoldable pub is_app_logged : LogLevel → LogLevel → Bool
is_app_logged set level = leb (rank set) (rank level)

-- An empty id or name is left out.
abbrev pub tag : Text → Text
tag [] = []
tag (c ∷ s) = codes "[" ++ ((c ∷ s) ++ codes "]\t")

-- `LogEvent::toString`: `time` is the clock's text, with milliseconds `ms`.
unfoldable pub event_to_string : LogLevel → Text → ℕ → ℕ → ℕ → RunTime → Text
event_to_string level time ms pid thread_id run_time =
    codes "["
    ++ (log_level_to_string level
        ++ (codes "]\t["
            ++ (time
                ++ (codes "."
                    ++ (decimal ms
                        ++ (codes "]\t["
                            ++ (decimal pid
                                ++ (codes ":"
                                    ++ (decimal thread_id
                                        ++ (codes "]\t"
                                            ++ (tag run_time.msgid
                                                ++ tag run_time.method_name)))))))))))

pub record AsyncLogger : Type 0 where
  pub batches : List (List Text)
  pub file_name : Text
  pub file_path : Text
  pub max_file_size : ℕ
  pub date : Text
  pub file_handler : Option Text
  pub reopen_flag : Bool
  pub file_no : ℕ
  pub stop_flag : Bool
  pub ended : Bool
  pub writes : List (Text × Text)

unfoldable pub make_async : Text → Text → ℕ → AsyncLogger
make_async file_name file_path max_size = record {
  batches = [];
  file_name = file_name;
  file_path = file_path;
  max_file_size = max_size;
  date = [];
  file_handler = none;
  reopen_flag = false;
  file_no = 0;
  stop_flag = false;
  ended = false;
  writes = [];
}

-- The name of file number `n` of a day.
unfoldable pub log_file_name : AsyncLogger → Text → ℕ → Text
log_file_name l date n =
    l.file_path ++ (l.file_name ++ (codes "_" ++ (date ++ (codes "_log." ++ decimal n))))

unfoldable pub push_log_buffer : List Text → AsyncLogger → AsyncLogger
push_log_buffer batch l = record l { batches = l.batches ++ batch ∷ [] }

unfoldable pub stop : AsyncLogger → AsyncLogger
stop l = record l { stop_flag = true }

-- The bytes of a batch, one text after the other.
unfoldable pub joined : List Text → Text
joined [] = []
joined (t ∷ ts) = t ++ joined ts

-- A new day resets the number and has the file opened again.
abbrev pub new_day : Text → AsyncLogger → AsyncLogger
new_day date l =
    if same date l.date then l else record l { file_no = 0; reopen_flag = true; date = date }

-- A missing handler sets the reopen flag.
abbrev pub handler_or : Text → Bool → Option Text → Text
handler_or named reopen none = named
handler_or named reopen (some f) = if reopen then named else f

module _ (tell : List (Text × Text) → Text → ℕ) where
  -- The file that is open once a batch is taken, and the number behind it.
  unfoldable pub open_file : Text → AsyncLogger → Text × ℕ
  unfolding log_file_name
  open_file date l =
      let l' = new_day date l in
      let named = log_file_name l' date l'.file_no in
      let opened = handler_or named l'.reopen_flag l'.file_handler in
      if ltb l'.max_file_size (tell l'.writes opened)
      then (named, l'.file_no + 1)
      else (opened, l'.file_no)

  -- A turn of `Loop`. With no batch the thread waits; an ended thread takes none.
  unfoldable pub take_batch : Text → List (List Text) → AsyncLogger → AsyncLogger
  unfolding open_file
  take_batch date [] l = l
  take_batch date (batch ∷ rest) l =
      let (file, next) = open_file date l in
      record (new_day date l) {
        batches = rest;
        file_handler = some file;
        reopen_flag = false;
        file_no = next;
        writes = l.writes ++ (file, joined batch) ∷ [];
        ended = l.stop_flag;
      }

  unfoldable pub turn : Text → AsyncLogger → AsyncLogger
  turn date l = if l.ended then l else take_batch date l.batches l

-- `Logger`: `is_async` is `m_type != 0`, `printed` the lines of the standard output.
pub record Logger : Type 0 where
  pub set_level : LogLevel
  pub is_async : Bool
  pub buffer : List Text
  pub app_buffer : List Text
  pub async : AsyncLogger
  pub app_async : AsyncLogger
  pub printed : List Text

unfoldable pub make_logger : LogLevel → Bool → Text → Text → ℕ → Logger
unfolding make_async
make_logger level is_async file_name file_path max_size = record {
  set_level = level;
  is_async = is_async;
  buffer = [];
  app_buffer = [];
  async = make_async (file_name ++ codes "_rpc") file_path max_size;
  app_async = make_async (file_name ++ codes "_app") file_path max_size;
  printed = [];
}

unfoldable pub push_log : Text → Logger → Logger
push_log msg g =
    if g.is_async
    then record g { buffer = g.buffer ++ msg ∷ [] }
    else record g { printed = g.printed ++ msg ∷ [] }

unfoldable pub push_app_log : Text → Logger → Logger
push_app_log msg g = record g { app_buffer = g.app_buffer ++ msg ∷ [] }

-- An empty buffer is not pushed.
unfoldable pub hand_over : List Text → AsyncLogger → AsyncLogger
unfolding push_log_buffer
hand_over [] l = l
hand_over (t ∷ ts) l = push_log_buffer (t ∷ ts) l

-- A call that no message and no turn comes into; its steps are in Common.Log.Steps.
unfoldable pub sync_loop : Logger → Logger
unfolding hand_over
sync_loop g = record g {
  buffer = [];
  app_buffer = [];
  async = hand_over g.buffer g.async;
  app_async = hand_over g.app_buffer g.app_async;
}

-- `Logger::flush`; that of an `AsyncLogger` only flushes its file.
unfoldable pub flush : Logger → Logger
unfolding sync_loop stop
flush g = let g' = sync_loop g in record g' { async = stop g'.async; app_async = stop g'.app_async }
