-- ===== src/Net/Timer.antt =====
-- rocket/net/timer_event.h, timer_event.cc, timer.h and timer.cc. A `TimerEvent::s_ptr` is a number
-- into a store of events, so the timer and its users see one event. The multimap is a list sorted by
-- key, an equal key after those that are there. Times are milliseconds, natural numbers; each call of
-- `getNowMs` is an argument. `armed` is the relative time last given to `timerfd_settime`.
pub mod Order
pub mod Expiry
pub mod Kept
pub mod Alarm
mod Tests
use my_rocket.Base.{
  ℕ, zero, suc, ◌+◌, ◌-◌, ◌*◌, ◌/◌, ◌%◌, ◌≡◌, Bool, true, false, not, ◌&&◌, List, [], ◌∷◌, ◌++◌,
  ltb, leb, ◌==◌, if◌then◌else◌, Option, none, some,
}

pub record TimerEvent : Type 0 where
  pub arrive_time : ℕ
  pub interval : ℕ
  pub is_repeated : Bool
  pub is_canceled : Bool
  pub task : Option ℕ

abbrev pub Store : Type 0
Store = ℕ → TimerEvent

abbrev pub update : Store → ℕ → TimerEvent → Store
update s p e q = if q == p then e else s q

-- `m_arrive_time = getNowMs() + m_interval`
unfoldable pub reset_event : ℕ → TimerEvent → TimerEvent
reset_event now e = record e { arrive_time = now + e.interval }

unfoldable pub make_event : ℕ → ℕ → Bool → Option ℕ → TimerEvent
make_event now interval is_repeated task = record {
  arrive_time = now + interval;
  interval = interval;
  is_repeated = is_repeated;
  is_canceled = false;
  task = task;
}

abbrev pub Entry : Type 0
Entry = ℕ × ℕ

pub record Timer : Type 0 where
  pub pending : List Entry
  pub armed : Option ℕ
  pub events : Store

-- `multimap::emplace`: behind the entries of the same key.
unfoldable pub emplace : ℕ → ℕ → List Entry → List Entry
emplace k p [] = (k, p) ∷ []
emplace k p ((j, q) ∷ m) = if ltb k j then (k, p) ∷ (j, q) ∷ m else (j, q) ∷ emplace k p m

-- The seconds and nanoseconds of `it_value` for an interval.
unfoldable pub timespec_of : ℕ → ℕ × ℕ
timespec_of inteval = (inteval / 1000, inteval % 1000 * 1000000)

-- The private `resetArriveTime`: 100 ms if the first event is late.
unfoldable pub rearm : ℕ → Timer → Timer
rearm now t = elim t.pending [
  | [] ↦ t
  | (_, p) ∷ _ ↦
      let at_time = (t.events p).arrive_time in
      record t { armed = some (if ltb now at_time then at_time - now else 100) }
]

-- Whether the new event is to arrive before all others.
abbrev pub is_first : Timer → ℕ → Bool
is_first t at_time = elim t.pending [
  | [] ↦ true
  | (_, q) ∷ _ ↦ ltb at_time (t.events q).arrive_time
]

unfoldable pub add_timer_event : ℕ → ℕ → Timer → Timer
add_timer_event now p t =
    let at_time = (t.events p).arrive_time in
    let t' = record t { pending = emplace at_time p t.pending } in
    if is_first t at_time then rearm now t' else t'

-- The first entry of the event among those of its key.
unfoldable pub remove_entry : ℕ → ℕ → List Entry → List Entry
remove_entry k p [] = []
remove_entry k p ((j, q) ∷ m) = if j == k && q == p then m else (j, q) ∷ remove_entry k p m

unfoldable pub delete_timer_event : ℕ → Timer → Timer
delete_timer_event p t =
    let e = record (t.events p) { is_canceled = true } in
    record t { events = update t.events p e; pending = remove_entry e.arrive_time p t.pending }

-- The entries that are due, and those behind them.
unfoldable pub split_due : ℕ → List Entry → List Entry × List Entry
split_due now [] = ([], [])
split_due now ((k, p) ∷ m) =
    let (due, later) = split_due now m in
    if leb k now then ((k, p) ∷ due, later) else ([], (k, p) ∷ m)

-- `tmps`: the events that are due and not cancelled.
unfoldable pub live : Store → List Entry → List ℕ
live s [] = []
live s ((k, p) ∷ m) = if (s p).is_canceled then live s m else p ∷ live s m

-- `tasks`: arrival time and callback of each, as they are before repeated events are reset.
unfoldable pub tasks : Store → List ℕ → List (ℕ × Option ℕ)
tasks s [] = []
tasks s (p ∷ ps) = ((s p).arrive_time, (s p).task) ∷ tasks s ps

-- Repeated events get a new time and go back; each reads the clock.
unfoldable pub add_repeated : ℕ → List ℕ → Timer → Timer
add_repeated now [] t = t
add_repeated now (p ∷ ps) t =
    if (t.events p).is_repeated
    then add_repeated now ps (
        add_timer_event now p
          (record t { events = update t.events p (reset_event now (t.events p)) }))
    else add_repeated now ps t

-- The callbacks that `onTimer` runs, in order; an empty one is skipped.
unfoldable pub callbacks : List (ℕ × Option ℕ) → List ℕ
callbacks [] = []
callbacks ((_, none) ∷ m) = callbacks m
callbacks ((_, some f) ∷ m) = f ∷ callbacks m

-- `onTimer`, up to the run of the callbacks, which it hands over. The clock is read as `now` for the
-- test of what is due, and as `again` for the resets behind it.
unfoldable pub on_timer : ℕ → ℕ → Timer → List ℕ × Timer
on_timer now again t =
    let (due, later) = split_due now t.pending in
    let ps = live t.events due in
    let t' = add_repeated again ps (record t { pending = later }) in
    (callbacks (tasks t.events ps), rearm again t')
