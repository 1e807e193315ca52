-- ===== src/Net/EventLoop/Drain.antt =====
-- The handlers that read a descriptor with a counter to its end: that of the wake-up descriptor in
-- eventloop.cc and the head of `onTimer` in timer.cc. The descriptor is the parameter `Counter`.
use my_rocket.Base.{
  ℕ, zero, suc, ◌<◌, ◌≤◌, ◌≡◌, ◌⊎◌, inl, inr, refl, Bool, true, false, Outcome, ok, stuck, arith,
}

-- What `read` returns: eight bytes, EAGAIN, or another error.
pub data CountRead : Type 0 where
  got again failed : CountRead

-- eventfd(2) and timerfd_create(2) without blocking: a read takes the whole counter, and gives EAGAIN
-- if it is 0.
pub record Counter (W : Type 0) : Type 0 where
  pub read : W → CountRead × W
  pub count : W → ℕ
  pub read-some : (w : W) → 0 < count w → ((read w).0 ≡ got) × (count (read w).1 ≡ 0)
  pub read-none : (w : W) → count w ≡ 0 → ((read w).0 ≡ again) × (count (read w).1 ≡ 0)

module _ {W : Type 0} (counter : Counter W) where
  -- `while(read(…) != -1 && errno != EAGAIN)`; `errno_again` is whether `errno` is EAGAIN.
  unfoldable pub read_wakeup : ℕ → Bool → W → Outcome (Bool × W)
  read_wakeup zero errno_again w = stuck
  read_wakeup (suc fuel) errno_again w = elim (counter.read w).0 [
    | got ↦ elim errno_again [
      | true ↦ ok (true, (counter.read w).1)
      | false ↦ read_wakeup fuel false (counter.read w).1
    ]
    | again ↦ ok (true, (counter.read w).1)
    | failed ↦ ok (false, (counter.read w).1)
  ]

  -- `while(1)` up to a read that fails with EAGAIN.
  unfoldable pub read_timer : ℕ → W → Outcome W
  read_timer zero w = stuck
  read_timer (suc fuel) w = elim (counter.read w).0 [
    | got ↦ read_timer fuel (counter.read w).1
    | again ↦ ok (counter.read w).1
    | failed ↦ read_timer fuel (counter.read w).1
  ]

  zero_or : (n : ℕ) → (n ≡ 0) ⊎ (0 < n)
  zero_or zero = inl refl
  zero_or (suc n) = inr (omega arith)

  read_timer_lem :
      (w : W) (fuel : ℕ)
      → (w' : W) × (read_timer (suc (suc fuel)) w ≡ ok w') × (counter.count w' ≡ 0)
  unfolding read_timer
  read_timer_lem w fuel =
      let w1 = (counter.read w).1 in
      elim (zero_or (counter.count w)) [
        | inl e ↦ let (now, left) = counter.read-none w e in (w1, rw (read_timer, now) refl, left)
        | inr h ↦
            let (now, left) = counter.read-some w h in
            let (then_, left') = counter.read-none w1 left in
            ((counter.read w1).1, rw (read_timer, now) (rw (read_timer, then_) refl), left')
      ]

  -- A counter that is not 0: with a stale `errno` the first read is the last.
  got_some :
      (w : W) (errno_again : Bool) (fuel : ℕ)
      → let w1 = (counter.read w).1 in
        (counter.read w).0 ≡ got
        → counter.count w1 ≡ 0
        → (counter.read w1).0 ≡ again
        → counter.count (counter.read w1).1 ≡ 0
        → (e : Bool) × (w' : W) × (read_wakeup (suc (suc fuel)) errno_again w ≡ ok (e, w'))
          × (counter.count w' ≡ 0)
  unfolding read_wakeup
  got_some w true fuel now left then_ left' =
      (true, (counter.read w).1, rw (read_wakeup, now) refl, left)
  got_some w false fuel now left then_ left' = (
    true,
    (counter.read (counter.read w).1).1,
    rw (read_wakeup, now) (rw (read_wakeup, then_) refl),
    left',
  )

  read_wakeup_lem :
      (w : W) (errno_again : Bool) (fuel : ℕ)
      → (e : Bool) × (w' : W) × (read_wakeup (suc (suc fuel)) errno_again w ≡ ok (e, w'))
        × (counter.count w' ≡ 0)
  unfolding read_wakeup
  read_wakeup_lem w errno_again fuel =
      let w1 = (counter.read w).1 in
      elim (zero_or (counter.count w)) [
        | inl e ↦
            let (now, left) = counter.read-none w e in (true, w1, rw (read_wakeup, now) refl, left)
        | inr h ↦
            let (now, left) = counter.read-some w h in
            let (then_, left') = counter.read-none w1 left in
            got_some w errno_again fuel now left then_ left'
      ]

  -- Whatever the counter and a stale `errno`, both handlers end within two reads and leave the counter at
  -- 0, so the descriptor does not stay ready.
  pub drained :
      (w : W) (errno_again : Bool) (fuel : ℕ)
      → 2 ≤ fuel
      → ((e : Bool) × (w' : W) × (read_wakeup fuel errno_again w ≡ ok (e, w'))
          × (counter.count w' ≡ 0))
        × ((w' : W) × (read_timer fuel w ≡ ok w') × (counter.count w' ≡ 0))
  drained w errno_again zero h = absurd (omega arith)
  drained w errno_again (suc zero) h = absurd (omega arith)
  drained w errno_again (suc (suc fuel)) h =
      (read_wakeup_lem w errno_again fuel, read_timer_lem w fuel)
