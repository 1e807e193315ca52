-- ===== src/Common/Log/Tests.antt =====
-- Messages through rocket/common/log.cc.
use my_rocket.Base.{
  ltb, if◌then◌else◌, ℕ, suc, ◌≡◌, refl, true, List, [], ◌∷◌, ◌++◌, Text, length, replicate,
}
use my_rocket.Rpc.Dispatcher.{codes}
use my_rocket.Base.{Bool, ◌≢◌, false, none, some, pos}
use my_rocket.Net.Timer.{make_event, Store}
use my_rocket.Net.EventLoop.Simple.{Kernel, kernel, bare}
use my_rocket.Net.EventLoop.Start.{Calls, ThreadLoop}
use my_rocket.Common.Log.Start.{
  LogConfig, Process, Signal, sigsegv, sigabrt, sigterm, sigkill, sigint, sigstkflt,
  TakesAllButKill, init_global_logger, init_global_logger_lem,
}
use my_rocket.Common.Log.{Logger, make_logger, make_async, debug, info, log_level_to_string}
use my_rocket.Common.Log.Order.{handle_all, written, stream}
use my_rocket.Common.Log.Order as Order
use my_rocket.Common.Log.Steps.{
  Syncing, idle, Step, log, app_log, sync, turns, app_turns, steps, messages, app_messages,
  rpc_stream, app_stream, steps-stream,
}
use my_rocket.Common.Log.Ending.{sync-drained}

-- The size of a file, for which the number of its writes stands.
abbrev sizes : List (Text × Text) → Text → ℕ
sizes ws file = length ws

abbrev logger : Logger
logger = make_logger debug true (codes "test") (codes "/tmp/") 1

abbrev day : Text
day = codes "20230101"

-- A message comes between the swap and the push of the one before it.
abbrev some_steps : List Step
some_steps =
    log (codes "a")
    ∷ app_log (codes "x")
    ∷ sync
    ∷ log (codes "b")
    ∷ sync
    ∷ turns day
    ∷ sync
    ∷ sync
    ∷ app_turns day
    ∷ []

abbrev resting : Syncing
resting = record { logger = logger; phase = idle; tmp = [] }

steps-stream_example :
    (rpc_stream sizes (steps sizes some_steps resting)
      ≡ rpc_stream sizes resting ++ messages sizes some_steps)
    × (app_stream sizes (steps sizes some_steps resting)
        ≡ app_stream sizes resting ++ app_messages sizes some_steps)
steps-stream_example = steps-stream sizes some_steps resting (unfold make_logger in refl)

-- A batch waits and a message is in the buffer.
abbrev busy : Logger
busy = record (make_logger debug true (codes "test") (codes "/tmp/") 1) {
  buffer = codes "c" ∷ [];
  async = record (make_async (codes "test") (codes "/tmp/") 1) {
    batches = (codes "a" ∷ []) ∷ (codes "b" ∷ []) ∷ [];
  };
}

sync-drained_example :
    let g' =
      handle_all sizes
        (Order.sync ∷ replicate (suc (length busy.async.batches)) (Order.turns day))
        busy in
    (written g'.async.writes ≡ stream busy.async busy.buffer)
    × (g'.async.batches ≡ [])
    × (g'.buffer ≡ [])
sync-drained_example =
    sync-drained sizes day busy (unfold make_logger in refl) (unfold make_async in refl)
      (unfold make_async in refl)

abbrev config : LogConfig
config = record {
  log_level = codes "INFO";
  log_file_name = codes "test";
  log_file_path = codes "/tmp/";
  log_max_file_size = 1000;
  log_sync_interval = 500;
}

abbrev loop_calls : Calls
loop_calls = record { thread_id = 1; epoll_fd = pos 3; wakeup_fd = pos 4; timer_fd = 5 }

abbrev heap : Store
heap = λ p. make_event 0 1 false none

takes_signal : Signal → Bool
takes_signal sigsegv = true
takes_signal sigabrt = true
takes_signal sigterm = true
takes_signal sigkill = false
takes_signal sigint = true
takes_signal sigstkflt = true

takes_signal-TakesAllButKill : TakesAllButKill takes_signal
unfolding takes_signal
takes_signal-TakesAllButKill = (refl, takes_others)
  where
    takes_others : (s : Signal) → s ≢ sigkill → takes_signal s ≡ true
    takes_others sigsegv n = refl
    takes_others sigabrt n = refl
    takes_others sigterm n = refl
    takes_others sigkill n = absurd (n refl)
    takes_others sigint n = refl
    takes_others sigstkflt n = refl

init_global_logger_lem_example :
    ((p : Process Kernel) × (l : ThreadLoop Kernel) × (init_global_logger kernel bare 40 41 heap
          takes_signal 0 44 config true loop_calls 100 101 none
        ≡ some p)
      × (p.logger.set_level ≡ info)
      × (p.current ≡ some l)
      × (p.signals ≡ sigsegv ∷ sigabrt ∷ sigterm ∷ sigint ∷ sigstkflt ∷ [])
      × (l.timer.pending ≡ (600, 0) ∷ [])
      × (l.timer.events 0 ≡ make_event 100 500 true (some 44))
      × (l.timer.armed ≡ some (if ltb 101 600 then 499 else 100)))
    × ((c' : Calls)
        → (p : Process Kernel) × (init_global_logger kernel bare 40 41 heap takes_signal 0 44 config
              false c' 100 101 none
            ≡ some p)
          × (p.logger.set_level ≡ info)
          × (p.current ≡ none)
          × (p.signals ≡ []))
unfolding kernel
init_global_logger_lem_example =
    init_global_logger_lem kernel bare 40 41 heap takes_signal 0 44 (λ j. refl) config info
      loop_calls 4 100 101 (unfold log_level_to_string in refl) takes_signal-TakesAllButKill
      (unfold kernel in λ k op fd. refl) (λ e. cc) refl
