-- ===== src/Net/IoThread.antt =====
-- rocket/net/io_thread.h, io_thread.cc, io_thread_group.h and io_thread_group.cc. The two threads of
-- an `IOThread`, the one that builds it and the one that runs `Main`, are interleaved step by step;
-- a semaphore is its count, and waiting is a step that wants a positive count.
pub mod Ending
pub mod Group
mod Tests
use mathlib.Core.Path.{ap₂}
use native.Mathlib.Nat.{mod-add-mod, mod-eq_of_lt, mod-lt, mod_self}
use my_rocket.Base.{
  ℕ, zero, suc, ◌+◌, ◌-◌, ◌*◌, ◌%◌, ◌≤◌, ◌<◌, ◌≡◌, ◌≢◌, refl, Bool, true, false, List, [], ◌∷◌,
  if◌then◌else◌, ◌==◌, arith, sym, ap, ◌∙◌, Bool-cases, inl, inr,
}

-- Where the building thread stands: in the constructor before its wait, with the object built, and
-- behind `start`.
pub data Owner : Type 0 where
  building built started : Owner

-- Where `Main` stands: before it has made its loop, before its post, before its wait for the start,
-- in the loop, and at its end.
pub data Worker : Type 0 where
  fresh has_loop waiting looping ended : Worker

pub record IoThread : Type 0 where
  pub owner : Owner
  pub worker : Worker
  pub init_semaphore : ℕ
  pub start_semaphore : ℕ

-- `sem_init` of both, and `pthread_create`.
abbrev pub init : IoThread
init = record { owner = building; worker = fresh; init_semaphore = 0; start_semaphore = 0 }

pub data Step (s t : IoThread) : Type 0 where
  make_loop : s.worker ≡ fresh → t ≡ record s { worker = has_loop } → Step s t
  post_init :
      s.worker ≡ has_loop
      → t ≡ record s { worker = waiting; init_semaphore = s.init_semaphore + 1 }
      → Step s t
  finish_build :
      s.owner ≡ building
      → 0 < s.init_semaphore
      → t ≡ record s { owner = built; init_semaphore = s.init_semaphore - 1 }
      → Step s t
  start :
      s.owner ≡ built
      → t ≡ record s { owner = started; start_semaphore = s.start_semaphore + 1 }
      → Step s t
  enter_loop :
      s.worker ≡ waiting
      → 0 < s.start_semaphore
      → t ≡ record s { worker = looping; start_semaphore = s.start_semaphore - 1 }
      → Step s t
  leave_loop : s.worker ≡ looping → t ≡ record s { worker = ended } → Step s t

pub data Reach : IoThread → Type 0 where
  here : Reach init
  next : {s t : IoThread} → Reach s → Step s t → Reach t

-- 1 if the worker has posted, and if it is past its wait.
abbrev pub posted : Worker → ℕ
posted fresh = 0
posted has_loop = 0
posted waiting = 1
posted looping = 1
posted ended = 1

abbrev pub running : Worker → ℕ
running fresh = 0
running has_loop = 0
running waiting = 0
running looping = 1
running ended = 1

abbrev pub is_built : Owner → ℕ
is_built building = 0
is_built built = 1
is_built started = 1

abbrev pub is_started : Owner → ℕ
is_started building = 0
is_started built = 0
is_started started = 1

-- Posts and waits of each semaphore balance.
pub record Balanced (s : IoThread) : Type 0 where
  pub inits : s.init_semaphore + is_built s.owner ≡ posted s.worker
  pub starts : s.start_semaphore + running s.worker ≡ is_started s.owner

Step-Balanced : {s t : IoThread} → Step s t → Balanced s → Balanced t
Step-Balanced (make_loop h e) b = ground arith
Step-Balanced (post_init h e) b = ground arith
Step-Balanced (finish_build h p e) b = ground arith
Step-Balanced (start h e) b = ground arith
Step-Balanced (enter_loop h p e) b = ground arith
Step-Balanced (leave_loop h e) b = ground arith

Reach-Balanced : {s : IoThread} → Reach s → Balanced s
Reach-Balanced here = omega arith
Reach-Balanced (next r st) = Step-Balanced st (Reach-Balanced r)

posted_cases : (w : Worker) → 0 < posted w → (w ≢ fresh) × (w ≢ has_loop)
posted_cases fresh h = absurd (omega arith)
posted_cases has_loop h = absurd (omega arith)
posted_cases waiting h = ((λ e. cc), (λ e. cc))
posted_cases looping h = ((λ e. cc), (λ e. cc))
posted_cases ended h = ((λ e. cc), (λ e. cc))

-- In every interleaving: once the constructor has returned, the worker has made its event loop, so
-- `getEventLoop` is not null; and the loop runs only after `start` has been called.
pub Reach-order :
    {s : IoThread}
    → Reach s
    → (s.owner ≢ building → (s.worker ≢ fresh) × (s.worker ≢ has_loop))
      × (s.worker ≡ looping → s.owner ≡ started)
Reach-order {s} r =
    let b = Reach-Balanced r in
    ((λ h. posted_cases s.worker (ground (arith, b.inits))), (λ h. ground (arith, b.starts)))

-- The group: how many threads there are, and `m_index`, which is never negative.
pub record IoThreadGroup : Type 0 where
  pub size : ℕ
  pub index : ℕ

abbrev pub make_group : ℕ → IoThreadGroup
make_group size = record { size = size; index = 0 }

-- `getIOThread`: which thread, and the group.
unfoldable pub get_io_thread : IoThreadGroup → ℕ × IoThreadGroup
get_io_thread g =
    let i = if g.index == g.size then 0 else g.index in (i, record g { index = i + 1 })

-- The threads that the first `n` calls return.
unfoldable pub first_threads : ℕ → IoThreadGroup → List ℕ
unfolding get_io_thread
first_threads zero g = []
first_threads (suc n) g = (get_io_thread g).0 ∷ first_threads n (get_io_thread g).1

unfoldable pub round_robin : ℕ → ℕ → ℕ → List ℕ
round_robin size zero k = []
round_robin size (suc n) k = (k % size) ∷ round_robin size n (k + 1)

next_index :
    (size k i : ℕ) → 0 < size → k % size ≡ i → (k + 1) % size ≡ (if i + 1 == size then 0 else i + 1)
next_index size k i h e =
    let step : (k % size + 1) % size ≡ (k + 1) % size = mod-add-mod k size 1 in
    let small : k % size < size = mod-lt k h in
    elim (Bool-cases (i + 1 == size)) [
      | inl f ↦
          let whole : k % size + 1 ≡ size = ground arith in
          rw f (sym step ∙ rw whole (mod_self size))
      | inr f ↦ rw f (sym step ∙ mod-eq_of_lt (ground arith) ∙ ap (λ x. x + 1) e)
    ]

rounds_from :
    (n size k : ℕ) (g : IoThreadGroup)
    → 0 < size
    → g.size ≡ size
    → (if g.index == size then 0 else g.index) ≡ k % size
    → first_threads n g ≡ round_robin size n k
unfolding first_threads round_robin get_io_thread
rounds_from zero size k g h s e = refl
rounds_from (suc n) size k g h s e =
    let i = if g.index == g.size then 0 else g.index in
    let at_k : i ≡ k % size = rw s e in
    ap₂ ◌∷◌ at_k (
      rounds_from n size (k + 1) (record g { index = i + 1 }) h s
        (sym (next_index size k i h (sym at_k))))

-- Connections are handed out in turn: call number `k` of a new group with at least one thread, counted
-- from 0, returns thread `k % size`.
pub first_threads_lem :
    (n size : ℕ) → 0 < size → first_threads n (make_group size) ≡ round_robin size n 0
first_threads_lem n size h = rounds_from n size 0 (make_group size) h refl (ground arith)
