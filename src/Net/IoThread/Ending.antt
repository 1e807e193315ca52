-- ===== src/Net/IoThread/Ending.antt =====
-- The end of an `IOThread`: the destructor in io_thread.cc, interleaved with the rest of `Main`, behind
-- the constructor. A step of `Main` that waits on a semaphore wants a positive count. A semaphore
-- that is destroyed keeps its count, and a thread that waits on it waits on, as with the `sem_destroy`
-- of glibc, which POSIX leaves undefined there. Its loop ends by the flag that `EventLoop::stop` sets.
use my_rocket.Base.{
  ℕ, ◌+◌, ◌-◌, ◌<◌, ◌≡◌, ◌≢◌, ◌⊎◌, inl, inr, refl, sym, ap, ◌∙◌, Bool, true, false, arith,
}
use my_rocket.Net.IoThread.{fresh, has_loop, Worker, waiting, looping, ended}

-- Where the destructor stands: not called, behind `stop`, behind `sem_destroy`, behind `pthread_join`,
-- and behind the `delete` of the loop.
pub data Stage : Type 0 where
  alive stopped destroyed joined freed : Stage

pub record Life : Type 0 where
  pub stage : Stage
  pub worker : Worker
  pub start_semaphore : ℕ
  pub stop_flag : Bool

-- Behind the constructor: `Main` waits for its start.
abbrev pub built_thread : Life
built_thread = record { stage = alive; worker = waiting; start_semaphore = 0; stop_flag = false }

pub data Step (s t : Life) : Type 0 where
  start : s.stage ≡ alive → t ≡ record s { start_semaphore = s.start_semaphore + 1 } → Step s t
  enter_loop :
      s.worker ≡ waiting
      → 0 < s.start_semaphore
      → t ≡ record s { worker = looping; start_semaphore = s.start_semaphore - 1 }
      → Step s t
  leave_loop : s.worker ≡ looping → s.stop_flag ≡ true → t ≡ record s { worker = ended } → Step s t
  stop : s.stage ≡ alive → t ≡ record s { stage = stopped; stop_flag = true } → Step s t
  destroy : s.stage ≡ stopped → t ≡ record s { stage = destroyed } → Step s t
  join : s.stage ≡ destroyed → s.worker ≡ ended → t ≡ record s { stage = joined } → Step s t
  free : s.stage ≡ joined → t ≡ record s { stage = freed } → Step s t

pub data Reach (s : Life) : Life → Type 0 where
  here : Reach s s
  next : {t u : Life} → Reach s t → Step t u → Reach s u

-- The loop is asked to stop once the destructor has begun, and the join is behind the end of `Main`.
abbrev pub Asked : Stage → Worker → Bool → Type 0
Asked alive w flag = Unit
Asked stopped w flag = flag ≡ true
Asked destroyed w flag = flag ≡ true
Asked joined w flag = w ≡ ended
Asked freed w flag = w ≡ ended

abbrev pub IsOrderly : Life → Type 0
IsOrderly s = Asked s.stage s.worker s.stop_flag

-- A step of `Main` that is not at its end keeps it.
Asked-worker :
    (g : Stage) (w w' : Worker) (flag : Bool) → w ≢ ended → Asked g w flag → Asked g w' flag
Asked-worker alive w w' flag h a = tt
Asked-worker stopped w w' flag h a = a
Asked-worker destroyed w w' flag h a = a
Asked-worker joined w w' flag h a = absurd (h a)
Asked-worker freed w w' flag h a = absurd (h a)

Step-IsOrderly : {s t : Life} → Step s t → IsOrderly s → IsOrderly t
Step-IsOrderly (start h e) a = rw e a
Step-IsOrderly {s} (enter_loop h p e) a =
    rw e (Asked-worker s.stage s.worker looping s.stop_flag (λ q. cc) a)
Step-IsOrderly {s} (leave_loop h k e) a =
    rw e (Asked-worker s.stage s.worker ended s.stop_flag (λ q. cc) a)
Step-IsOrderly (stop h e) a = rw e refl
Step-IsOrderly (destroy h e) a = rw e (rw h at a)
Step-IsOrderly (join h k e) a = rw e k
Step-IsOrderly (free h e) a = rw e (rw h at a)

pub Reach-IsOrderly : {s t : Life} → Reach s t → IsOrderly s → IsOrderly t
Reach-IsOrderly here a = a
Reach-IsOrderly (next r st) a = Step-IsOrderly st (Reach-IsOrderly r a)

abbrev pub gone : Life → Life
gone s = record s { stage = freed; worker = ended }

-- Three steps from `stop` to `delete`, behind the end of `Main`.
ended-gone : (s : Life) → s.worker ≡ ended → s.stage ≢ alive → Reach s (gone s)
ended-gone s e begun = go s.stage refl
  where
    last : gone s ≡ record s { stage = freed }
    last = rw e refl

    go : (g : Stage) → s.stage ≡ g → Reach s (gone s)
    go alive h = absurd (begun h)
    go stopped h = next (next (next here (destroy h refl)) (join refl e refl)) (free refl last)
    go destroyed h = next (next here (join h e refl)) (free refl last)
    go joined h = next here (free h last)
    go freed h = rw (last ∙ ap (λ g. record s { stage = g }) (sym h)) here

Reach-trans : {s t u : Life} → Reach s t → Reach t u → Reach s u
Reach-trans r here = r
Reach-trans r (next q st) = next (Reach-trans r q) st

flag_set : (g : Stage) (flag : Bool) → g ≢ alive → Asked g looping flag → flag ≡ true
flag_set alive flag h a = absurd (h refl)
flag_set stopped flag h a = a
flag_set destroyed flag h a = a
flag_set joined flag h a = absurd (cc a)
flag_set freed flag h a = absurd (cc a)

orderly_gone :
    {s : Life}
    → Reach built_thread s
    → ((s.stage ≡ joined) ⊎ (s.stage ≡ freed) → s.worker ≡ ended)
      × (s.stage ≢ alive → (s.worker ≡ looping) ⊎ (s.worker ≡ ended) → Reach s (gone s))
orderly_gone {s} r =
    let orderly = Reach-IsOrderly r tt in
    (
      λ h. elim h [ inl e ↦ rw e at orderly | inr e ↦ rw e at orderly ],
      λ begun h. elim h [
        | inl e ↦
            let flag = flag_set s.stage s.stop_flag begun (rw e at orderly) in
            Reach-trans (next here (leave_loop e flag refl))
              (ended-gone (record s { worker = ended }) refl begun)
        | inr e ↦ ended-gone s e begun
      ],
    )

stage_cases : (g : Stage) → ((g ≡ joined) ⊎ (g ≡ freed)) ⊎ ((g ≢ joined) × (g ≢ freed))
stage_cases alive = inr ((λ e. cc), (λ e. cc))
stage_cases stopped = inr ((λ e. cc), (λ e. cc))
stage_cases destroyed = inr ((λ e. cc), (λ e. cc))
stage_cases joined = inl (inl refl)
stage_cases freed = inl (inr refl)

alive_cases : (g : Stage) → (g ≡ alive) ⊎ (g ≢ alive)
alive_cases alive = inl refl
alive_cases stopped = inr (λ e. cc)
alive_cases destroyed = inr (λ e. cc)
alive_cases joined = inr (λ e. cc)
alive_cases freed = inr (λ e. cc)

worker_cases : (w : Worker) → ((w ≡ looping) ⊎ (w ≡ ended)) ⊎ ((w ≢ looping) × (w ≢ ended))
worker_cases fresh = inr ((λ e. cc), (λ e. cc))
worker_cases has_loop = inr ((λ e. cc), (λ e. cc))
worker_cases waiting = inr ((λ e. cc), (λ e. cc))
worker_cases looping = inl (inl refl)
worker_cases ended = inl (inr refl)

-- In every interleaving from the end of the constructor on: `Main` has ended, or the join has not
-- returned and the loop is not deleted; and the thread can go on until its loop is deleted, or the
-- destructor has not begun, or the thread is not yet in its loop.
pub Reach-gone :
    {s : Life}
    → Reach built_thread s
    → ((s.worker ≡ ended) ⊎ ((s.stage ≢ joined) × (s.stage ≢ freed)))
      × (Reach s (gone s) ⊎ ((s.stage ≡ alive) ⊎ ((s.worker ≢ looping) × (s.worker ≢ ended))))
Reach-gone {s} r =
    let (over, on) = orderly_gone r in
    (
      elim (stage_cases s.stage) [ inl e ↦ inl (over e) | inr e ↦ inr e ],
      elim (alive_cases s.stage) [
        | inl e ↦ inr (inl e)
        | inr begun ↦ elim (worker_cases s.worker) [
          | inl h ↦ inl (on begun h)
          | inr h ↦ inr (inr h)
        ]
      ],
    )

-- The destructor has begun, and `Main` waits for a start that cannot come any more.
abbrev pub IsStranded : Life → Type 0
IsStranded s =
    (s.worker ≡ waiting) × (s.start_semaphore ≡ 0) × ((s.stage ≡ stopped) ⊎ (s.stage ≡ destroyed))

Step-IsStranded : {s t : Life} → Step s t → IsStranded s → IsStranded t
Step-IsStranded (start h e) p = ground arith
Step-IsStranded (enter_loop h q e) p = ground arith
Step-IsStranded (leave_loop h k e) p = ground arith
Step-IsStranded (stop h e) p = ground arith
Step-IsStranded (destroy h e) p = ground arith
Step-IsStranded (join h k e) p = ground arith
Step-IsStranded (free h e) p = ground arith

-- If the destructor calls `stop` while `Main` waits and no `start` is posted, then `Main` waits for
-- ever, and the join does not return, whatever steps follow; a thread that waits on a semaphore is
-- taken to wait on when it is destroyed.
pub Reach-stranded :
    {s t : Life}
    → (s.worker ≡ waiting)
    → (s.start_semaphore ≡ 0)
    → (s.stage ≡ stopped)
    → Reach s t
    → (t.worker ≡ waiting) × (t.stage ≢ joined) × (t.stage ≢ freed)
Reach-stranded {s} {t} w none h r = let p = go r (w, none, inl h) in ground (arith, p)
  where
    go : {u v : Life} → Reach u v → IsStranded u → IsStranded v
    go here p = p
    go (next q st) p = Step-IsStranded st (go q p)
