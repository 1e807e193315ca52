-- ===== src/Common/Log/Stopped.antt =====
-- What is still written after `Logger::flush` of log.cc, and which files are written.
use my_rocket.Base.{ℕ, ◌≡◌, true, false, List, ◌∷◌, ◌++◌, some, Text, arith, same_iff}
use my_rocket.Common.Log.{AsyncLogger, log_file_name, joined, open_file}
use my_rocket.Common.Log.Order.{written}

-- A stopped thread that has its last batch `b` before it, or has written it behind `w` and ended.
pub data Last (w : Text) (b : List Text) (l : AsyncLogger) : Type 0 where
  before :
      (rest : List (List Text))
      → l.stop_flag ≡ true
      → l.ended ≡ false
      → l.batches ≡ b ∷ rest
      → written l.writes ≡ w
      → Last w b l
  after : l.stop_flag ≡ true → l.ended ≡ true → written l.writes ≡ w ++ joined b → Last w b l

module _ (tell : List (Text × Text) → Text → ℕ) where
  -- The first change of file leads back into the same file: while number 0 is open, the number behind
  -- the batches that come is 0 too, and a batch goes to file 0 however long that is.
  pub open_file_first :
      (date : Text) (l : AsyncLogger)
      → l.date ≡ date
      → l.file_no ≡ 0
      → l.file_handler ≡ some (log_file_name l date 0)
      → (open_file tell date l).0 ≡ log_file_name l date 0
  unfolding open_file
  open_file_first date l today first opened = ground (arith, same_iff date l.date)
