-- ===== src/Common/Log/Ending.antt =====
-- When the thread of an `AsyncLogger` of log.cc has written everything, when it never will, and into
-- which file.
use my_rocket.Base.{
  ℕ, zero, suc, ◌≡◌, ◌≤◌, refl, sym, ap, ◌∙◌, true, false, List, [], ◌∷◌, Text, length, append-nil,
  arith, replicate, length-append,
}
use my_rocket.Common.Log.{
  AsyncLogger, Logger, push_log_buffer, joined, take_batch, turn, hand_over, sync_loop,
}
use my_rocket.Common.Log.Order.{
  written, waiting, stream, sync, turns, handle, handle_all, messages, handle_all-stream,
  turn_going,
}

nil_of : (bs : List (List Text)) → length bs ≤ 0 → bs ≡ []
nil_of [] h = refl
nil_of (b ∷ bs) h = absurd (omega arith)

-- `syncLoop` adds one batch at most, and leaves the flags.
hand_over_flags :
    (buffer : List Text) (l : AsyncLogger)
    → ((hand_over buffer l).ended ≡ l.ended)
      × ((hand_over buffer l).stop_flag ≡ l.stop_flag)
      × (length (hand_over buffer l).batches ≤ suc (length l.batches))
unfolding hand_over push_log_buffer
hand_over_flags [] l = (refl, refl, omega arith)
hand_over_flags (t ∷ ts) l = (refl, refl, omega (arith, length-append l.batches ((t ∷ ts) ∷ [])))

module _ (tell : List (Text × Text) → Text → ℕ) where
  take_batch-batches :
      (date : Text) (bs : List (List Text)) (l : AsyncLogger) (n : ℕ)
      → l.batches ≡ bs
      → l.ended ≡ false
      → l.stop_flag ≡ false
      → length bs ≤ suc n
      → let l' = take_batch tell date bs l in
        (l'.ended ≡ false) × (l'.stop_flag ≡ false) × (length l'.batches ≤ n)
  unfolding take_batch
  take_batch-batches date [] l n e going unstopped few =
      (going, unstopped, omega (arith, ap (λ (bs : List (List Text)). length bs) e))
  take_batch-batches date (b ∷ bs) l n e going unstopped few =
      (unstopped, ground (arith, unstopped), omega arith)

  -- A batch fewer.
  turn-batches :
      (date : Text) (l : AsyncLogger) (n : ℕ)
      → l.ended ≡ false
      → l.stop_flag ≡ false
      → length l.batches ≤ suc n
      → let l' = turn tell date l in
        (l'.ended ≡ false) × (l'.stop_flag ≡ false) × (length l'.batches ≤ n)
  turn-batches date l n going unstopped few =
      rw (turn_going tell date l going)
        (take_batch-batches date l.batches l n refl going unstopped few)

  turns_all :
      (date : Text) (n : ℕ) (g : Logger)
      → g.async.ended ≡ false
      → g.async.stop_flag ≡ false
      → length g.async.batches ≤ n
      → let g' = handle_all tell (replicate n (turns date)) g in
        (g'.async.batches ≡ []) × (g'.buffer ≡ g.buffer)
  unfolding handle_all handle
  turns_all date zero g going unstopped few = (nil_of g.async.batches few, refl)
  turns_all date (suc n) g going unstopped few =
      let (going', unstopped', few') = turn-batches date g.async n going unstopped few in
      turns_all date n (record g { async = turn tell date g.async }) going' unstopped' few'

  silent : (date : Text) (n : ℕ) → messages (replicate n (turns date)) ≡ []
  unfolding messages
  silent date zero = refl
  silent date (suc n) = silent date n

  -- Once `syncLoop` has run, a thread that is not stopped writes everything: after one turn more than
  -- there were batches, its files hold all that was waiting and buffered, in order, and nothing waits.
  pub sync-drained :
      (date : Text) (g : Logger)
      → g.is_async ≡ true
      → g.async.ended ≡ false
      → g.async.stop_flag ≡ false
      → let g' = handle_all tell (sync ∷ replicate (suc (length g.async.batches)) (turns date)) g in
        (written g'.async.writes ≡ stream g.async g.buffer)
        × (g'.async.batches ≡ [])
        × (g'.buffer ≡ [])
  unfolding handle_all handle sync_loop messages waiting joined
  sync-drained date g async going unstopped =
      let n = suc (length g.async.batches) in
      let es = replicate n (turns date) in
      let (ended, stopped, few) = hand_over_flags g.buffer g.async in
      let (done, bare) = turns_all date n (sync_loop g) (ended ∙ going) (stopped ∙ unstopped) few in
      let kept = (handle_all-stream tell (sync ∷ es) g async).0 in
      let g' = handle_all tell es (sync_loop g) in
      let all_written : written g'.async.writes ≡ stream g'.async g'.buffer =
        rw (done, bare) (sym (append-nil _)) in
      (all_written ∙ (kept ∙ (rw silent (append-nil _))), done, bare)
