-- ===== src/Common/Log/Signal.antt =====
-- `CoredumpHandler` of log.cc: a signal is logged, the logger is flushed, and the two threads are
-- joined. A thread that is joined takes its turns; the join returns when one of them has ended it.
use my_rocket.Base.{List, [], ◌∷◌, if◌then◌else◌, Text, ℕ}
use my_rocket.Common.Log.{AsyncLogger, Logger, error, is_logged, push_log, flush, turn}

-- `ERRORLOG`, with the line that it makes.
unfoldable pub error_log : Text → Logger → Logger
error_log line g = if is_logged g.set_level error then push_log line g else g

-- The handler up to its joins.
unfoldable pub coredump_handler : Text → Logger → Logger
unfolding error_log flush
coredump_handler line g = flush (error_log line g)

module _ (tell : List (Text × Text) → Text → ℕ) where
  -- Turns of a thread, each on a day; with nothing handed over in between.
  unfoldable pub run_turns : List Text → AsyncLogger → AsyncLogger
  run_turns [] l = l
  run_turns (date ∷ dates) l = run_turns dates (turn tell date l)
