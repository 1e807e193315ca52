-- ===== src/Common/Log/Start.antt =====
-- How the logger comes up: `InitGlobalLogger` and `Logger::init` of log.cc, on the event loop of the
-- thread. The values of the configuration are arguments, and so are those of the system calls and of
-- the clock; `none` is a process that ends by `exit`.
use my_rocket.Base.{
  ltb, ℕ, ◌+◌, ◌-◌, ◌≡◌, ◌≢◌, refl, Bool, true, false, List, [], ◌∷◌, if◌then◌else◌, pos, negsuc,
  Option, none, some, Text, same,
}
use my_rocket.Net.Timer.{Store, make_event}
use my_rocket.Net.EventLoop.{Epoll}
use my_rocket.Net.EventLoop.Start.{
  Calls, ThreadLoop, get_current, add_repeated_event, first_repeated, get_current-first, Accepts,
}
use my_rocket.Common.Log.{
  Logger, LogLevel, unknown, debug, info, error, string_to_log_level, log_level_to_string,
  make_logger,
}

pub data Signal : Type 0 where
  sigsegv sigabrt sigterm sigkill sigint sigstkflt : Signal

-- Those for which `init` calls `signal` with `CoredumpHandler`.
abbrev pub requested_signals : List Signal
requested_signals = sigsegv ∷ sigabrt ∷ sigterm ∷ sigkill ∷ sigint ∷ sigstkflt ∷ []

-- What the configuration says of the log; the sizes and the interval are not negative.
pub record LogConfig : Type 0 where
  pub log_level : Text
  pub log_file_name : Text
  pub log_file_path : Text
  pub log_max_file_size : ℕ
  pub log_sync_interval : ℕ

-- The process: its logger, its main thread's loop if it has one, and the signals that it handles.
pub record Process (K : Type 0) : Type 0 where
  pub logger : Logger
  pub current : Option (ThreadLoop K)
  pub signals : List Signal

-- The signals for which the call succeeds; its result is not looked at.
unfoldable pub register : (Signal → Bool) → List Signal → List Signal
register takes [] = []
register takes (s ∷ ss) = let rest = register takes ss in if takes s then s ∷ rest else rest

-- `signal` gives every signal a handler but `SIGKILL`.
abbrev pub TakesAllButKill : (Signal → Bool) → Type 0
TakesAllButKill takes = (takes sigkill ≡ false) × ((s : Signal) → s ≢ sigkill → takes s ≡ true)

register_lem :
    (takes : Signal → Bool)
    → TakesAllButKill takes
    → register takes requested_signals ≡ sigsegv ∷ sigabrt ∷ sigterm ∷ sigint ∷ sigstkflt ∷ []
unfolding register
register_lem takes (kill, others) =
    rw
      (
        kill,
        others sigsegv (λ e. cc),
        others sigabrt (λ e. cc),
        others sigterm (λ e. cc),
        others sigint (λ e. cc),
        others sigstkflt (λ e. cc),
      )
      refl

-- `takes` says for which signals `signal` succeeds, `sync_event` is the place of the timer event, and `sync_loop` its callback.
module _ {K : Type 0} (epoll : Epoll K) (empty : K) (read_empty on_timer : ℕ) (heap : Store)
    (takes : Signal → Bool) (sync_event sync_loop : ℕ) where
  -- `Logger::init`
  unfoldable pub init : Calls → ℕ → ℕ → ℕ → Process K → Option (Process K)
  init c now again interval p =
      if (p.logger).is_async
      then elim (get_current epoll empty read_empty on_timer heap p.current c) [
        | none ↦ none
        | some l ↦ some (record p {
          current = some (add_repeated_event now again sync_event interval sync_loop l);
          signals = register takes requested_signals;
        })
      ]
      else some p

  unfoldable pub init_global_logger :
      LogConfig → Bool → Calls → ℕ → ℕ → Option (ThreadLoop K) → Option (Process K)
  init_global_logger config is_async c now again current =
      let level = string_to_log_level config.log_level in
      init c now again config.log_sync_interval (record {
        logger =
            make_logger level is_async config.log_file_name config.log_file_path
              config.log_max_file_size;
        current = current;
        signals = [];
      })

  level_read : (level : LogLevel) → string_to_log_level (log_level_to_string level) ≡ level
  unfolding string_to_log_level log_level_to_string same
  level_read unknown = refl
  level_read debug = refl
  level_read info = refl
  level_read error = refl

  init-running :
      (c : Calls) (now again interval : ℕ) (p : Process K) (l : ThreadLoop K)
      → (p.logger).is_async ≡ true
      → get_current epoll empty read_empty on_timer heap p.current c ≡ some l
      → init c now again interval p
        ≡ some (record p {
          current = some (add_repeated_event now again sync_event interval sync_loop l);
          signals = register takes requested_signals;
        })
  unfolding init
  init-running c now again interval p l h got = simp (h, got)

  init-idle :
      (c : Calls) (now again interval : ℕ) (p : Process K)
      → (p.logger).is_async ≡ false
      → init c now again interval p ≡ some p
  unfolding init
  init-idle c now again interval p h = simp h

  module _ (nothing_watched : (j : ℕ) → epoll.watched empty j ≡ none) where
    -- With the name of a level in the configuration, on a thread that has no loop, and with an
    -- `epoll_create`, an `eventfd` and calls of `epoll_ctl` that succeed, an asynchronous logger comes up
    -- with that level and with handlers for five of the six signals that `init` names: `SIGKILL`
    -- gets none. The timer of the thread's new loop has the event that hands messages over and no
    -- other, one interval after the clock and repeated, and is armed for it, or for 100 ms if the
    -- clock has passed that time. A logger that is not asynchronous comes up without a loop and
    -- without handlers, whatever the system calls return.
    pub init_global_logger_lem :
        (config : LogConfig) (level : LogLevel) (c : Calls) (wake now again : ℕ)
        → config.log_level ≡ log_level_to_string level
        → TakesAllButKill takes
        → Accepts epoll
        → c.epoll_fd ≢ negsuc 0
        → c.wakeup_fd ≡ pos wake
        → let time = now + config.log_sync_interval in
          ((p : Process K) × (l : ThreadLoop K) × (init_global_logger config true c now again none
              ≡ some p)
            × (p.logger.set_level ≡ level)
            × (p.current ≡ some l)
            × (p.signals ≡ sigsegv ∷ sigabrt ∷ sigterm ∷ sigint ∷ sigstkflt ∷ [])
            × (l.timer.pending ≡ (time, sync_event) ∷ [])
            × (l.timer.events sync_event
                ≡ make_event now config.log_sync_interval true (some sync_loop))
            × (l.timer.armed ≡ some (if ltb again time then time - again else 100)))
          × ((c' : Calls)
              → (p : Process K) × (init_global_logger config false c' now again none ≡ some p)
                × (p.logger.set_level ≡ level)
                × (p.current ≡ none)
                × (p.signals ≡ []))
    unfolding init_global_logger
    init_global_logger_lem config level c wake now again named refused accepts created woken =
        let (l, got, _, _, _, _, fresh, _) =
          get_current-first epoll empty read_empty on_timer heap nothing_watched c wake accepts
            created woken in
        let (due, event, armed) =
          first_repeated now again sync_event config.log_sync_interval sync_loop heap l fresh in
        let l' = add_repeated_event now again sync_event config.log_sync_interval sync_loop l in
        let read : string_to_log_level config.log_level ≡ level = rw named (level_read level) in
        let logger = λ (is_async : Bool).
          make_logger level is_async config.log_file_name config.log_file_path
            config.log_max_file_size in
        (
          (
            record {
              logger = logger true;
              current = some l';
              signals = register takes requested_signals;
            },
            l',
            rw read (
                init-running c now again config.log_sync_interval
                  (record { logger = logger true; current = none; signals = [] }) l
                  (unfold make_logger in refl) got),
            unfold make_logger in refl,
            refl,
            register_lem takes refused,
            due,
            event,
            armed,
          ),
          λ c'. (
            record { logger = logger false; current = none; signals = [] },
            rw read (
                init-idle c' now again config.log_sync_interval
                  (record { logger = logger false; current = none; signals = [] })
                  (unfold make_logger in refl)),
            unfold make_logger in refl,
            refl,
            refl,
          ),
        )
