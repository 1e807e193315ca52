-- ===== src/Net/Timer/Alarm.antt =====
-- When the timerfd of timer.cc fires. A deadline is the time at which it does, if it is armed: the
-- clock at `timerfd_settime` with the interval that is set. To see whether an operation arms it,
-- the operation is run on a timer whose `armed` is empty. A fired timerfd is not armed any more.
use my_rocket.Base.{
  ℕ, suc, ◌+◌, ◌-◌, ◌*◌, ◌/◌, ◌%◌, ◌≤◌, ◌<◌, ◌≡◌, refl, ap, ◌∙◌, List, [], ◌∷◌, ltb, if◌then◌else◌,
  ◌==◌, ◌&&◌, Option, none, some, arith, Bool-cases, inl, inr,
}
use my_rocket.Net.Timer.{
  Timer, Entry, timespec_of, emplace, rearm, add_timer_event, delete_timer_event, remove_entry,
  on_timer,
}
use my_rocket.Net.Timer.Order.{IsPaced, From, pending-rearm, events-rearm, on_timer-From}
use my_rocket.Net.Timer.Expiry.{Absent, Synced}
use my_rocket.Net.Timer.Kept.{
  IsKept, add_timer_event-IsKept, delete_timer_event-IsKept, on_timer-IsKept,
}

pub record Alarm : Type 0 where
  pub timer : Timer
  pub deadline : Option ℕ

-- What is done to a timer: `addTimerEvent`, which reads the clock if it arms the timerfd,
-- `deleteTimerEvent`, and an expiry with its two readings of the clock.
pub data Action : Type 0 where
  add : ℕ → ℕ → Action
  delete : ℕ → Action
  expire : ℕ → ℕ → Action

abbrev unarmed : Timer → Timer
unarmed t = record t { armed = none }

unarmed-IsKept : (t : Timer) → IsKept t → IsKept (unarmed t)
unarmed-IsKept t k = record { sorted = k.sorted; synced = k.synced; single = k.single }

-- The time at which a timerfd fires that is set at `now`. A zero `it_value` disarms it.
abbrev fires : ℕ → ℕ × ℕ → Option ℕ
fires now (sec, nsec) =
    if sec == 0 && nsec == 0 then none else some (now + (sec * 1000 + nsec / 1000000))

-- The deadline behind an operation that has armed the timerfd at `now`, or has not.
abbrev moved : ℕ → Option ℕ → Option ℕ → Option ℕ
moved now none d = d
moved now (some n) d = fires now (timespec_of n)

-- An interval that is not zero is set as it is, and its nanoseconds are less than a second.
fires-timespec_of :
    (now n : ℕ)
    → 0 < n
    → (fires now (timespec_of n) ≡ some (now + n)) × ((timespec_of n).1 < 1000000000)
unfolding timespec_of
fires-timespec_of now n h = (
  elim (Bool-cases (n / 1000 == 0 && n % 1000 * 1000000 == 0)) [
    | inl e ↦ absurd (ground (arith, e))
    | inr e ↦ rw e (ap some (omega arith))
  ],
  omega arith,
)

unfoldable pub act : Action → Alarm → Alarm
act (add now p) a =
    let t = add_timer_event now p (unarmed a.timer) in
    record { timer = t; deadline = moved now t.armed a.deadline }
act (delete p) a = record a { timer = delete_timer_event p a.timer }
act (expire now again) a =
    let t = (on_timer now again (unarmed a.timer)).1 in
    record { timer = t; deadline = moved again t.armed none }

unfoldable pub acts : List Action → Alarm → Alarm
unfolding act
acts [] a = a
acts (x ∷ xs) a = acts xs (act x a)

-- The timerfd fires at most `late` milliseconds behind the time of the first entry.
abbrev pub Covers : ℕ → Option ℕ → List Entry → Type 0
Covers late d [] = Unit {0}
Covers late d ((k, p) ∷ m) = (x : ℕ) × (d ≡ some x) × (x ≤ k + late)

-- What an action must meet: the 100 ms of a late arming fit into `late`, behind the delay with
-- which an event is added, or with which an expiry is worked off; an event that is added has no
-- entry.
abbrev pub Prompt : ℕ → Action → Alarm → Type 0
Prompt late (add now p) a =
    (now + 100 ≤ (a.timer.events p).arrive_time + late) × Absent p a.timer.pending
Prompt late (delete p) a = Unit {0}
Prompt late (expire now again) a =
    (now ≤ again) × (again + 100 ≤ now + late) × IsPaced a.timer.events

abbrev pub AllPrompt : ℕ → List Action → Alarm → Type 0
unfolding act
AllPrompt late [] a = Unit {0}
AllPrompt late (x ∷ xs) a = Prompt late x a × AllPrompt late xs (act x a)

-- The first entry is not yet late by more than `late` allows.
abbrev InTime : ℕ → ℕ → List Entry → Type 0
InTime late now [] = Unit {0}
InTime late now ((k, p) ∷ m) = now + 100 ≤ k + late

rearm-Covers :
    (late now : ℕ) (t : Timer) (d : Option ℕ)
    → Synced t.events t.pending
    → InTime late now t.pending
    → Covers late (moved now (rearm now t).armed d) (rearm now t).pending
unfolding rearm
rearm-Covers late now t d k soon = rw (pending-rearm now t) (go t.pending refl k soon)
  where
    go :
        (m : List Entry)
        → t.pending ≡ m
        → Synced t.events m
        → InTime late now m
        → Covers late (moved now (rearm now t).armed d) m
    go [] e h soon = tt
    go ((j, q) ∷ m) e h soon = elim (Bool-cases (ltb now j)) [
      | inl f ↦ (
        j,
        rw (rearm, e, h.0, f)
            ((fires-timespec_of now (j - now) (ground arith)).0 ∙ ap some (ground arith)),
        omega arith,
      )
      | inr f ↦ (now + 100, rw (rearm, e, h.0, f) (fires-timespec_of now 100 (omega arith)).0, soon)
    ]

From-InTime :
    (late now n : ℕ) (m : List Entry) → now + 100 ≤ n + late → From n m → InTime late now m
From-InTime late now n [] h f = tt
From-InTime late now n ((k, p) ∷ m) h f = omega (arith, f.0)

-- An event that is not to come first stands behind the first entry.
add-Covers :
    (late now p : ℕ) (t : Timer) (d : Option ℕ)
    → IsKept t
    → Absent p t.pending
    → now + 100 ≤ (t.events p).arrive_time + late
    → Covers late d t.pending
    → let t' = add_timer_event now p (unarmed t) in Covers late (moved now t'.armed d) t'.pending
unfolding add_timer_event emplace
add-Covers late now p t d k h soon c = go t.pending refl k.synced c
  where
    go :
        (m : List Entry)
        → t.pending ≡ m
        → Synced t.events m
        → Covers late d m
        → let t' = add_timer_event now p (unarmed t) in
          Covers late (moved now t'.armed d) t'.pending
    go [] e s c = rw e (
        rearm-Covers late now
          (record { pending = ((t.events p).arrive_time, p) ∷ []; armed = none; events = t.events })
          d (refl, tt) soon)
    go ((j, q) ∷ m) e s c = elim (Bool-cases (ltb (t.events p).arrive_time j)) [
      | inl f ↦
          rw (e, s.0, f)
            (rearm-Covers late now
              (record {
                pending = ((t.events p).arrive_time, p) ∷ (j, q) ∷ m;
                armed = none;
                events = t.events;
              })
              d (refl, s) soon)
      | inr f ↦ rw (e, s.0, f) c
    ]

delete-Covers :
    (late k p : ℕ) (d : Option ℕ) (m : List Entry)
    → From 0 m
    → Covers late d m
    → Covers late d (remove_entry k p m)
unfolding remove_entry
delete-Covers late k p d [] f c = tt
delete-Covers late k p d ((j, q) ∷ m) f c = elim (Bool-cases (j == k && q == p)) [
  | inl e ↦ rw e (go m f.1)
  | inr e ↦ rw e c
]
  where
    go : (m : List Entry) → From j m → Covers late d m
    go [] f = tt
    go ((i, r) ∷ m) f = (c.0, c.1, omega (arith, c.2, f.0))

settled-Covers :
    (late now n : ℕ) (t : Timer) (d : Option ℕ)
    → now + 100 ≤ n + late
    → IsKept (rearm now t)
    → From n (rearm now t).pending
    → Covers late (moved now (rearm now t).armed d) (rearm now t).pending
settled-Covers late now n t d soon k f =
    rearm-Covers late now t d (rw (pending-rearm now t, events-rearm now t) at k.synced)
      (From-InTime late now n t.pending soon (rw (pending-rearm now t) at f))

expire-Covers :
    (late now again : ℕ) (t : Timer) (d : Option ℕ)
    → IsKept t
    → now ≤ again
    → again + 100 ≤ now + late
    → IsPaced t.events
    → let t' = (on_timer now again (unarmed t)).1 in Covers late (moved again t'.armed d) t'.pending
unfolding on_timer
expire-Covers late now again t d k h soon paced =
    let kept = on_timer-IsKept now again (unarmed t) (unarmed-IsKept t k) in
    let later = on_timer-From now again 0 (unarmed t) h paced k.sorted in
    settled-Covers late again (suc now) _ d (omega (arith, soon)) kept later

-- If each action is prompt, and the timerfd covers the entries of a timer that is kept in step,
-- then behind any sequence of actions it does so still: with an entry in the multimap the timerfd
-- is armed, and fires at most `late` milliseconds behind the time of the first one.
pub acts-Covers :
    (late : ℕ) (xs : List Action) (a : Alarm)
    → IsKept a.timer
    → Covers late a.deadline a.timer.pending
    → AllPrompt late xs a
    → Covers late (acts xs a).deadline (acts xs a).timer.pending
unfolding acts act
acts-Covers late [] a k c h = c
acts-Covers late (add now p ∷ xs) a k c h =
    acts-Covers late xs (act (add now p) a)
      (add_timer_event-IsKept now p (unarmed a.timer) h.0.1 (unarmed-IsKept a.timer k))
      (add-Covers late now p a.timer a.deadline k h.0.1 h.0.0 c) h.1
acts-Covers late (delete p ∷ xs) a k c h =
    acts-Covers late xs (act (delete p) a) (delete_timer_event-IsKept p a.timer k)
      (unfold delete_timer_event in delete-Covers late _ p a.deadline a.timer.pending k.sorted c)
      h.1
acts-Covers late (expire now again ∷ xs) a k c h =
    acts-Covers late xs (act (expire now again) a)
      (on_timer-IsKept now again (unarmed a.timer) (unarmed-IsKept a.timer k))
      (expire-Covers late now again a.timer none k h.0.0 h.0.1 h.0.2) h.1
