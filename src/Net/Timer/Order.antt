-- ===== src/Net/Timer/Order.antt =====
-- The multimap of timer.cc stays sorted, and `onTimer` leaves nothing due behind.
use my_rocket.Base.{
  ℕ, suc, ◌+◌, ◌≤◌, ◌<◌, ◌≡◌, refl, true, List, [], ◌∷◌, ltb, leb, ◌==◌, ◌&&◌, arith, Bool-cases,
  inl, inr, ==_iff,
}
use my_rocket.Net.Timer.{
  Timer, Store, Entry, update, reset_event, emplace, rearm, is_first, add_timer_event, remove_entry,
  delete_timer_event, split_due, add_repeated, on_timer,
}

-- The keys do not fall along the list, and start at `n` at least.
abbrev pub From : ℕ → List Entry → Type 0
From n [] = Unit {0}
From n ((k, p) ∷ m) = (n ≤ k) × From k m

pub From-mono : {a b : ℕ} (m : List Entry) → a ≤ b → From b m → From a m
From-mono [] h f = tt
From-mono ((k, p) ∷ m) h f = (omega arith, f.1)

pub emplace-From : (k p n : ℕ) (m : List Entry) → n ≤ k → From n m → From n (emplace k p m)
unfolding emplace
emplace-From k p n [] h f = (h, tt)
emplace-From k p n ((j, q) ∷ m) h f = elim (Bool-cases (ltb k j)) [
  | inl e ↦ rw e (h, (ground arith, f.1))
  | inr e ↦ rw e (f.0, emplace-From k p j m (ground arith) f.1)
]

remove_entry-From : (k p n : ℕ) (m : List Entry) → From n m → From n (remove_entry k p m)
unfolding remove_entry
remove_entry-From k p n [] f = tt
remove_entry-From k p n ((j, q) ∷ m) f = elim (Bool-cases (j == k && q == p)) [
  | inl e ↦ rw e (From-mono m f.0 f.1)
  | inr e ↦ rw e (f.0, remove_entry-From k p j m f.1)
]

pub split_due-From : (now n : ℕ) (m : List Entry) → From n m → From (suc now) (split_due now m).1
unfolding split_due
split_due-From now n [] f = tt
split_due-From now n ((k, p) ∷ m) f = elim (Bool-cases (leb k now)) [
  | inl e ↦ rw e (split_due-From now k m f.1)
  | inr e ↦ rw e (ground arith, f.1)
]

pub pending-rearm : (now : ℕ) (t : Timer) → (rearm now t).pending ≡ t.pending
unfolding rearm
pending-rearm now t = ground arith

pub events-rearm : (now : ℕ) (t : Timer) → (rearm now t).events ≡ t.events
unfolding rearm
events-rearm now t = ground arith

pub pending-add :
    (now p : ℕ) (t : Timer)
    → (add_timer_event now p t).pending ≡ emplace (t.events p).arrive_time p t.pending
unfolding add_timer_event
pending-add now p t = elim (Bool-cases (is_first t (t.events p).arrive_time)) [
  | inl e ↦ rw e (pending-rearm now _)
  | inr e ↦ rw e refl
]

pub events-add : (now p : ℕ) (t : Timer) → (add_timer_event now p t).events ≡ t.events
unfolding add_timer_event
events-add now p t = elim (Bool-cases (is_first t (t.events p).arrive_time)) [
  | inl e ↦ rw e (events-rearm now _)
  | inr e ↦ rw e refl
]

-- Adding and deleting keep the multimap sorted.
pub add_timer_event-From :
    (now p n : ℕ) (t : Timer)
    → From n t.pending
    → n ≤ (t.events p).arrive_time
    → From n (add_timer_event now p t).pending
add_timer_event-From now p n t f h = rw (pending-add now p t) (emplace-From _ p n t.pending h f)

pub delete_timer_event-From :
    (p n : ℕ) (t : Timer) → From n t.pending → From n (delete_timer_event p t).pending
unfolding delete_timer_event
delete_timer_event-From p n t f = remove_entry-From _ p n t.pending f

-- A repeated event waits for some time.
abbrev pub IsPaced : Store → Type 0
IsPaced s = (p : ℕ) → (s p).is_repeated ≡ true → 0 < (s p).interval

update-IsPaced : (s : Store) (p now : ℕ) → IsPaced s → IsPaced (update s p (reset_event now (s p)))
unfolding reset_event
update-IsPaced s p now h q r = elim (Bool-cases (q == p)) [
  | inl e ↦ rw e (h p (rw e at r))
  | inr e ↦ rw e (h q (rw e at r))
]

add_repeated-From :
    (now again : ℕ) (ps : List ℕ) (t : Timer)
    → now ≤ again
    → IsPaced t.events
    → From (suc now) t.pending
    → From (suc now) (add_repeated again ps t).pending
unfolding add_repeated
add_repeated-From now again [] t h paced f = f
add_repeated-From now again (p ∷ ps) t h paced f = elim (Bool-cases (t.events p).is_repeated) [
  | inl e ↦
      let t' = record t { events = update t.events p (reset_event again (t.events p)) } in
      let at_time : (t'.events p).arrive_time ≡ again + (t.events p).interval =
        unfold reset_event in rw ((==_iff p p).1 refl) refl in
      simp e (
        add_repeated-From now again ps (add_timer_event again p t') h
          (rw (events-add again p t') (update-IsPaced t.events p again paced))
          (add_timer_event-From again p (suc now) t' f (rw at_time (omega (arith, paced p e)))))
  | inr e ↦ rw e (add_repeated-From now again ps t h paced f)
]

-- If the multimap is sorted, repeated events have positive intervals and the clock does not run
-- back, then `onTimer` leaves a sorted multimap of events that are all to come after `now`: no event
-- is due a second time in one expiry.
pub on_timer-From :
    (now again n : ℕ) (t : Timer)
    → now ≤ again
    → IsPaced t.events
    → From n t.pending
    → From (suc now) (on_timer now again t).1.pending
unfolding on_timer
on_timer-From now again n t h paced f = rw (pending-rearm again _) (
    add_repeated-From now again _ (record t { pending = (split_due now t.pending).1 }) h paced
      (split_due-From now n t.pending f))
