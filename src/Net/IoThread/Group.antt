-- ===== src/Net/IoThread/Group.antt =====
-- The threads of an `IOThreadGroup`: its constructor, `start` and `join` in io_thread_group.cc. A thread is
-- what Net.IoThread.Ending makes of it.
use my_rocket.Base.{
  ℕ, zero, suc, ◌+◌, ◌≡◌, refl, Bool, true, false, List, [], ◌∷◌, ◌&&◌, All, arith, replicate,
}
use my_rocket.Net.IoThread.{Worker, fresh, has_loop, waiting, looping, ended}
use my_rocket.Net.IoThread.Ending.{Life, built_thread, Reach, here, next, enter_loop}

abbrev pub new_threads : ℕ → List Life
new_threads size = replicate size built_thread

-- `IOThread::start` of each.
unfoldable pub start_all : List Life → List Life
start_all [] = []
start_all (s ∷ ss) = record s { start_semaphore = s.start_semaphore + 1 } ∷ start_all ss

abbrev pub has_ended : Worker → Bool
has_ended fresh = false
has_ended has_loop = false
has_ended waiting = false
has_ended looping = false
has_ended ended = true

-- Whether `join` returns: each `pthread_join` waits for the end of its thread.
unfoldable pub can_join : List Life → Bool
can_join [] = true
can_join (s ∷ ss) = has_ended s.worker && can_join ss

-- Once a new group is started, each of its threads can enter its loop; the `join` of a group with a
-- thread does not return as long as it is in this state.
pub start_all-new_threads :
    (size : ℕ)
    → All (λ s. (t : Life) × Reach s t × (t.worker ≡ looping)) (start_all (new_threads size))
      × (can_join (start_all (new_threads (suc size))) ≡ false)
unfolding start_all can_join
start_all-new_threads size = (each size, refl)
  where
    each :
        (n : ℕ)
        → All (λ s. (t : Life) × Reach s t × (t.worker ≡ looping)) (start_all (new_threads n))
    each zero = tt
    each (suc n) = ((_, next here (enter_loop refl (omega arith) refl), refl), each n)
