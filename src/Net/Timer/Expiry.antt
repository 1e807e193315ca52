-- ===== src/Net/Timer/Expiry.antt =====
-- Which callbacks `onTimer` of timer.cc runs.
use my_rocket.Base.{
  ℕ, ◌<◌, ◌≡◌, refl, sym, ap, ◌∙◌, true, false, not, List, [], ◌∷◌, leb, ◌==◌, ◌&&◌, if◌then◌else◌,
  arith, Bool-cases, inl, inr, none, some, ◌≢◌, All, ==_iff,
}
use my_rocket.Net.Timer.{
  Timer, Store, Entry, remove_entry, delete_timer_event, split_due, live, tasks, callbacks,
  on_timer,
}
use my_rocket.Net.Timer.Order.{From}

-- The callbacks of the entries that are due by `now` and not cancelled, in the order of the list.
unfoldable pub due_callbacks : ℕ → Store → List Entry → List ℕ
due_callbacks now s [] = []
due_callbacks now s ((k, p) ∷ m) =
    let rest = due_callbacks now s m in
    if leb k now && not (s p).is_canceled
    then elim (s p).task [ none ↦ rest | some f ↦ f ∷ rest ]
    else rest

none_due :
    (now n : ℕ) (s : Store) (m : List Entry) → now < n → From n m → due_callbacks now s m ≡ []
unfolding due_callbacks
none_due now n s [] h f = refl
none_due now n s ((k, p) ∷ m) h f = ground (arith, none_due now k s m (omega arith) f.1)

live-due :
    (now n : ℕ) (s : Store) (m : List Entry)
    → From n m
    → callbacks (tasks s (live s (split_due now m).0)) ≡ due_callbacks now s m
unfolding split_due live tasks callbacks due_callbacks
live-due now n s [] f = refl
live-due now n s ((k, p) ∷ m) f = ground (arith, live-due now k s m f.1, none_due now k s m)

-- On a sorted multimap, wherever it stops, `onTimer` runs exactly the callbacks of the events that
-- are due by `now` and not cancelled, each once for each entry and in order of arrival.
pub on_timer_callbacks :
    (now again n : ℕ) (t : Timer)
    → From n t.pending
    → (on_timer now again t).0 ≡ due_callbacks now t.events t.pending
unfolding on_timer
on_timer_callbacks now again n t f = live-due now n t.events t.pending f

-- The event `p` has no entry.
abbrev pub Absent : ℕ → List Entry → Type 0
Absent p = All (λ e. e.1 ≢ p)

abbrev pub Synced : Store → List Entry → Type 0
Synced s = All (λ e. (s e.1).arrive_time ≡ e.0)

-- No event has two entries.
abbrev pub Single : List Entry → Type 0
Single [] = Unit {0}
Single ((k, p) ∷ m) = Absent p m × Single m

remove_entry-Absent :
    (s : Store) (p : ℕ) (m : List Entry)
    → Synced s m
    → Single m
    → Absent p (remove_entry (s p).arrive_time p m)
unfolding remove_entry
remove_entry-Absent s p [] h u = tt
remove_entry-Absent s p ((j, q) ∷ m) h u = elim (Bool-cases (q == p)) [
  | inl e ↦
      let same_event : q ≡ p = (==_iff q p).0 e in
      let key : j ≡ (s p).arrive_time = sym h.0 ∙ ap (λ x. (s x).arrive_time) same_event in
      rw (e, (==_iff j (s p).arrive_time).1 key) (rw (← same_event) u.0)
  | inr e ↦
      let other : (j == (s p).arrive_time && q == p) ≡ false = ground arith in
      rw other ((λ k. ground arith), remove_entry-Absent s p m h.1 u.1)
]

-- Deleting an event takes its entry out and cancels it, if entries carry their events' arrival times
-- and no event has two; other events are as before.
pub delete_timer_event-Absent :
    (p : ℕ) (t : Timer)
    → Synced t.events t.pending
    → Single t.pending
    → let t' = delete_timer_event p t in
      Absent p t'.pending
      × ((t'.events p).is_canceled ≡ true)
      × ((q : ℕ) → q ≢ p → t'.events q ≡ t.events q)
unfolding delete_timer_event
delete_timer_event-Absent p t h u = (
  remove_entry-Absent t.events p t.pending h u,
  rw ((==_iff p p).1 refl) refl,
  λ q ne. ground arith,
)
