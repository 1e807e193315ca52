-- ===== src/Net/IoThread/Tests.antt =====
-- Runs of rocket/net/io_thread.cc and io_thread_group.cc.
use my_rocket.Base.{◌≡◌, ◌≢◌, refl, [], ◌∷◌, arith}
use my_rocket.Base.{◌⊎◌, true}
use my_rocket.Net.IoThread.{waiting, ended}
use my_rocket.Net.IoThread.Ending as Ending
use my_rocket.Net.IoThread.Ending.{
  Life, alive, stopped, destroyed, joined, freed, built_thread, gone, Reach-gone, Reach-stranded,
}
use my_rocket.Net.IoThread.{
  IoThread, building, started, fresh, has_loop, looping, Reach, here, next, make_loop, post_init,
  finish_build, start, enter_loop, Reach-order, make_group, first_threads, get_io_thread,
}

abbrev running_thread : IoThread
running_thread = record {
  owner = started;
  worker = looping;
  init_semaphore = 0;
  start_semaphore = 0;
}

running_thread-Reach : Reach running_thread
running_thread-Reach =
    next
      (next
        (next (next (next here (make_loop refl refl)) (post_init refl refl))
          (finish_build refl (omega arith) refl))
        (start refl refl))
      (enter_loop refl (omega arith) refl)

Reach-order_example :
    (running_thread.owner ≢ building
      → (running_thread.worker ≢ fresh) × (running_thread.worker ≢ has_loop))
    × (running_thread.worker ≡ looping → running_thread.owner ≡ started)
Reach-order_example = Reach-order {s = running_thread} running_thread-Reach

four_of_two : first_threads 4 (make_group 2) ≡ 0 ∷ 1 ∷ 0 ∷ 1 ∷ []
unfolding first_threads get_io_thread
four_of_two = refl

-- The destructor has called `stop` while the loop runs.
abbrev stopping : Life
stopping = record { stage = stopped; worker = looping; start_semaphore = 0; stop_flag = true }

stopping-Reach : Ending.Reach built_thread stopping
stopping-Reach =
    Ending.next
      (Ending.next (Ending.next Ending.here (Ending.start refl refl))
        (Ending.enter_loop refl (omega arith) refl))
      (Ending.stop refl refl)

Reach-gone_example :
    ((stopping.worker ≡ ended) ⊎ ((stopping.stage ≢ joined) × (stopping.stage ≢ freed)))
    × (Ending.Reach stopping (gone stopping)
        ⊎ ((stopping.stage ≡ alive) ⊎ ((stopping.worker ≢ looping) × (stopping.worker ≢ ended))))
Reach-gone_example = Reach-gone {s = stopping} stopping-Reach

-- The destructor of a thread that was never started.
abbrev unstarted : Life
unstarted = record { stage = stopped; worker = waiting; start_semaphore = 0; stop_flag = true }

abbrev stranded : Life
stranded = record unstarted { stage = destroyed }

Reach-stranded_example :
    (stranded.worker ≡ waiting) × (stranded.stage ≢ joined) × (stranded.stage ≢ freed)
Reach-stranded_example =
    Reach-stranded {s = unstarted} {t = stranded} refl refl refl
      (Ending.next Ending.here (Ending.destroy refl refl))
