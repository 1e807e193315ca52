-- ===== src/Net/Timer/Kept.antt =====
-- The multimap of timer.cc in step with the events: sorted, an entry for each event at most, and the
-- key of each entry the arrival time of its event.
use my_rocket.Base.{
  ℕ, ◌≡◌, ◌≢◌, refl, sym, ap, ◌∙◌, true, List, [], ◌∷◌, ltb, leb, ◌==◌, ◌&&◌, arith, Bool-cases,
  inl, inr, All, ==_iff,
}
use my_rocket.Net.Timer.{
  Timer, TimerEvent, Store, Entry, update, reset_event, emplace, rearm, add_timer_event,
  remove_entry, delete_timer_event, split_due, live, add_repeated, on_timer,
}
use my_rocket.Net.Timer.Order.{
  From, pending-add, events-add, pending-rearm, events-rearm, add_timer_event-From,
  delete_timer_event-From, split_due-From, From-mono,
}
use my_rocket.Net.Timer.Expiry.{Absent, Synced, Single}

pub record IsKept (t : Timer) : Type 0 where
  pub sorted : From 0 t.pending
  pub synced : Synced t.events t.pending
  pub single : Single t.pending

emplace-All {ℓ} :
    (P : Entry → Type ℓ) (k p : ℕ) (m : List Entry) → P (k, p) → All P m → All P (emplace k p m)
unfolding emplace
emplace-All P k p [] h a = (h, tt)
emplace-All P k p ((j, q) ∷ m) h a = elim (Bool-cases (ltb k j)) [
  | inl e ↦ rw e (h, a)
  | inr e ↦ rw e (a.0, emplace-All P k p m h a.1)
]

emplace-Single : (k p : ℕ) (m : List Entry) → Absent p m → Single m → Single (emplace k p m)
unfolding emplace
emplace-Single k p [] h u = (tt, tt)
emplace-Single k p ((j, q) ∷ m) h u = elim (Bool-cases (ltb k j)) [
  | inl e ↦ rw e (h, u)
  | inr e ↦
      rw e (emplace-All (λ x. x.1 ≢ q) k p m (λ f. h.0 (sym f)) u.0, emplace-Single k p m h.1 u.1)
]

remove_entry-All {ℓ} :
    (P : Entry → Type ℓ) (k p : ℕ) (m : List Entry) → All P m → All P (remove_entry k p m)
unfolding remove_entry
remove_entry-All P k p [] a = tt
remove_entry-All P k p ((j, q) ∷ m) a = elim (Bool-cases (j == k && q == p)) [
  | inl e ↦ rw e a.1
  | inr e ↦ rw e (a.0, remove_entry-All P k p m a.1)
]

remove_entry-Single : (k p : ℕ) (m : List Entry) → Single m → Single (remove_entry k p m)
unfolding remove_entry
remove_entry-Single k p [] u = tt
remove_entry-Single k p ((j, q) ∷ m) u = elim (Bool-cases (j == k && q == p)) [
  | inl e ↦ rw e u.1
  | inr e ↦ rw e (remove_entry-All (λ x. x.1 ≢ q) k p m u.0, remove_entry-Single k p m u.1)
]

-- An event without an entry may change.
update-Synced :
    (s : Store) (p : ℕ) (e : TimerEvent) (m : List Entry)
    → Absent p m
    → Synced s m
    → Synced (update s p e) m
update-Synced s p e [] h a = tt
update-Synced s p e ((j, q) ∷ m) h a = (ground (arith, h.0, a.0), update-Synced s p e m h.1 a.1)

-- An event may change if its arrival time stays.
cancel-Synced :
    (s : Store) (p : ℕ) (m : List Entry)
    → Synced s m
    → Synced (update s p (record (s p) { is_canceled = true })) m
cancel-Synced s p [] a = tt
cancel-Synced s p ((j, q) ∷ m) a = elim (Bool-cases (q == p)) [
  | inl e ↦
      (rw e (ap (λ x. (s x).arrive_time) (sym ((==_iff q p).0 e)) ∙ a.0), cancel-Synced s p m a.1)
  | inr e ↦ (rw e a.0, cancel-Synced s p m a.1)
]

pub add_timer_event-IsKept :
    (now p : ℕ) (t : Timer) → Absent p t.pending → IsKept t → IsKept (add_timer_event now p t)
add_timer_event-IsKept now p t h k = record {
  sorted = add_timer_event-From now p 0 t k.sorted (omega arith);
  synced =
      rw (pending-add now p t, events-add now p t)
        (emplace-All (λ x. (t.events x.1).arrive_time ≡ x.0) (t.events p).arrive_time p t.pending
          refl k.synced);
  single = rw (pending-add now p t) (emplace-Single _ p t.pending h k.single);
}

pub delete_timer_event-IsKept : (p : ℕ) (t : Timer) → IsKept t → IsKept (delete_timer_event p t)
unfolding delete_timer_event
delete_timer_event-IsKept p t k = record {
  sorted = delete_timer_event-From p 0 t k.sorted;
  synced =
      remove_entry-All
        (λ x.
          (update t.events p (record (t.events p) { is_canceled = true }) x.1).arrive_time ≡ x.0)
        _ p t.pending (cancel-Synced t.events p t.pending k.synced);
  single = remove_entry-Single _ p t.pending k.single;
}

-- Two lists of events have none in common, and none of the first twice.
abbrev Apart : List ℕ → List Entry → Type 0
Apart [] m = Unit {0}
Apart (p ∷ ps) m = Absent p m × All (λ q. q ≢ p) ps × Apart ps m

split_due-All {ℓ} :
    (P : Entry → Type ℓ) (now : ℕ) (m : List Entry) → All P m → All P (split_due now m).1
unfolding split_due
split_due-All P now [] a = tt
split_due-All P now ((k, p) ∷ m) a = elim (Bool-cases (leb k now)) [
  | inl e ↦ rw e (split_due-All P now m a.1)
  | inr e ↦ rw e a
]

split_due-Single : (now : ℕ) (m : List Entry) → Single m → Single (split_due now m).1
unfolding split_due
split_due-Single now [] u = tt
split_due-Single now ((k, p) ∷ m) u = elim (Bool-cases (leb k now)) [
  | inl e ↦ rw e (split_due-Single now m u.1)
  | inr e ↦ rw e u
]

live-Absent :
    (now p : ℕ) (s : Store) (m : List Entry)
    → Absent p m
    → All (λ q. q ≢ p) (live s (split_due now m).0)
unfolding split_due live
live-Absent now p s [] h = tt
live-Absent now p s ((k, q) ∷ m) h = elim (Bool-cases (leb k now)) [
  | inl e ↦ elim (Bool-cases (s q).is_canceled) [
    | inl c ↦ rw (e, c) (live-Absent now p s m h.1)
    | inr c ↦ rw (e, c) (h.0, live-Absent now p s m h.1)
  ]
  | inr e ↦ rw e tt
]

live-Apart :
    (now : ℕ) (s : Store) (m : List Entry)
    → Single m
    → Apart (live s (split_due now m).0) (split_due now m).1
unfolding split_due live
live-Apart now s [] u = tt
live-Apart now s ((k, p) ∷ m) u = elim (Bool-cases (leb k now)) [
  | inl e ↦ elim (Bool-cases (s p).is_canceled) [
    | inl c ↦ rw (e, c) (live-Apart now s m u.1)
    | inr c ↦
        rw (e, c)
          (
            split_due-All (λ x. x.1 ≢ p) now m u.0,
            live-Absent now p s m u.0,
            live-Apart now s m u.1,
          )
  ]
  | inr e ↦ rw e tt
]

emplace-Apart :
    (k p : ℕ) (ps : List ℕ) (m : List Entry)
    → All (λ q. q ≢ p) ps
    → Apart ps m
    → Apart ps (emplace k p m)
emplace-Apart k p [] m h a = tt
emplace-Apart k p (q ∷ ps) m h a =
    (emplace-All (λ x. x.1 ≢ q) k p m (λ e. h.0 (sym e)) a.0, a.1, emplace-Apart k p ps m h.1 a.2)

add_repeated-IsKept :
    (again : ℕ) (ps : List ℕ) (t : Timer)
    → Apart ps t.pending
    → IsKept t
    → IsKept (add_repeated again ps t)
unfolding add_repeated
add_repeated-IsKept again [] t a k = k
add_repeated-IsKept again (p ∷ ps) t a k = elim (Bool-cases (t.events p).is_repeated) [
  | inl e ↦
      let t' = record t { events = update t.events p (reset_event again (t.events p)) } in
      let k' : IsKept t' = record {
        sorted = k.sorted;
        synced = update-Synced t.events p (reset_event again (t.events p)) t.pending a.0 k.synced;
        single = k.single;
      } in
      simp e (
        add_repeated-IsKept again ps (add_timer_event again p t')
          (rw (pending-add again p t') (emplace-Apart _ p ps t.pending a.1 a.2))
          (add_timer_event-IsKept again p t' a.0 k'))
  | inr e ↦ rw e (add_repeated-IsKept again ps t a.2 k)
]

rearm-IsKept : (now : ℕ) (t : Timer) → IsKept t → IsKept (rearm now t)
rearm-IsKept now t k = record {
  sorted = rw (pending-rearm now t) k.sorted;
  synced = rw (pending-rearm now t, events-rearm now t) k.synced;
  single = rw (pending-rearm now t) k.single;
}

-- An expiry keeps the multimap in step, repeated events with their new times included.
pub on_timer-IsKept : (now again : ℕ) (t : Timer) → IsKept t → IsKept (on_timer now again t).1
unfolding on_timer
on_timer-IsKept now again t k =
    let ps = live t.events (split_due now t.pending).0 in
    let later = record t { pending = (split_due now t.pending).1 } in
    let start : IsKept later = record {
      sorted = From-mono _ (omega arith) (split_due-From now 0 t.pending k.sorted);
      synced = split_due-All (λ x. (t.events x.1).arrive_time ≡ x.0) now t.pending k.synced;
      single = split_due-Single now t.pending k.single;
    } in
    rearm-IsKept again (add_repeated again ps later)
      (add_repeated-IsKept again ps later (live-Apart now t.events t.pending k.single) start)
