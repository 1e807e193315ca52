-- ===== src/Net/Timer/Tests.antt =====
-- Runs of rocket/net/timer.cc.
use my_rocket.Base.{ℕ, zero, ◌≡◌, suc, refl, List, [], ◌∷◌, true, false, none, some, arith}
use my_rocket.Net.Timer.{
  TimerEvent, Timer, add_timer_event, emplace, rearm, timespec_of, on_timer, split_due, live, tasks,
  callbacks,
}
use my_rocket.Net.Timer.Order.{From, IsPaced, on_timer-From}
use my_rocket.Net.Timer.Alarm.{Alarm, Action, add, delete, expire, act, acts, Covers, acts-Covers}
use my_rocket.Net.Timer.Expiry.{due_callbacks, on_timer_callbacks}

-- Event 0 is repeated each 10 ms and calls back 50; event 1 comes once and calls back 51.
abbrev events : ℕ → TimerEvent
events zero = record {
  arrive_time = 10;
  interval = 10;
  is_repeated = true;
  is_canceled = false;
  task = some 50;
}
events (suc _) = record {
  arrive_time = 12;
  interval = 12;
  is_repeated = false;
  is_canceled = false;
  task = some 51;
}

abbrev two_pending : Timer
two_pending = record { pending = (10, 0) ∷ (12, 1) ∷ []; armed = some 10; events = events }

both_due : (on_timer 12 13 two_pending).0 ≡ 50 ∷ 51 ∷ []
unfolding on_timer split_due live tasks callbacks
both_due = refl

on_timer_callbacks_example :
    (on_timer 11 13 two_pending).0 ≡ due_callbacks 11 two_pending.events two_pending.pending
on_timer_callbacks_example = on_timer_callbacks 11 13 0 two_pending (omega arith, (omega arith, tt))

events-IsPaced : IsPaced events
events-IsPaced zero h = omega arith
events-IsPaced (suc n) h = omega arith

on_timer-From_example : From 12 (on_timer 11 13 two_pending).1.pending
on_timer-From_example =
    on_timer-From 11 13 0 two_pending (omega arith) events-IsPaced (omega arith, (omega arith, tt))

abbrev idle : Alarm
idle = record { timer = record { pending = []; armed = none; events = events }; deadline = none }

abbrev some_actions : List Action
some_actions = add 0 0 ∷ add 5 1 ∷ expire 11 13 ∷ delete 1 ∷ []

-- The first event arms 10, and the expiry, which puts that event back for 23, the 100 of a late one.
deadline_first : (acts (add 0 0 ∷ add 5 1 ∷ []) idle).deadline ≡ some 10
unfolding acts act add_timer_event emplace rearm timespec_of
deadline_first = refl

acts-Covers_example :
    Covers 200 (acts some_actions idle).deadline (acts some_actions idle).timer.pending
unfolding act add_timer_event emplace rearm
acts-Covers_example =
    acts-Covers 200 some_actions idle (record { sorted = tt; synced = tt; single = tt }) tt
      (
        (omega arith, tt),
        (
          (omega arith, ((λ e. omega (arith, e)), tt)),
          ((omega arith, omega arith, events-IsPaced), (tt, tt)),
        ),
      )
