-- ===== src/Net/EventLoop/Tests.antt =====
-- Runs of rocket/net/eventloop.cc.
use my_rocket.Base.{
  ◌⊎◌, ◌↔◌, ℕ, ◌≡◌, ◌++◌, ◌==◌, refl, List, [], ◌∷◌, true, false, some, if◌then◌else◌,
}
use my_rocket.Net.FdEvent.{FdEvent, make_fd_event}
use my_rocket.Net.EventLoop.{EventLoop, Ready, contains, add_op, add_to_epoll}
use my_rocket.Net.EventLoop.Simple.{Kernel, kernel, limited_kernel, bare}
use my_rocket.Net.EventLoop.Watching.{InSync, mask, add_to_epoll-InSync}
use my_rocket.Base.{sym, append-nil}
use my_rocket.Net.EventLoop.{Events, callback, add_epoll, delete_epoll}
use my_rocket.Net.EventLoop.Tasks.{
  Machine, Step, take, run, wait, post, steps, tasks, all_added, steps-tasks,
}

abbrev idle : EventLoop Kernel
idle = record {
  thread_id = 1;
  kernel = bare;
  listen_fds = [];
  pending_tasks = [];
  stop_flag = false;
  is_looping = true;
  wakeups = 0;
}

abbrev reader : FdEvent
reader = record (make_fd_event 5) { epoll_in = true; read_callback = some 40 }

idle-InSync : InSync limited_kernel idle
unfolding contains limited_kernel
idle-InSync fd = ((λ p. cc), (λ n. absurd (n refl)))

-- A descriptor that the kernel takes.
add_to_epoll-InSync_example :
    let l' = add_to_epoll limited_kernel reader idle in
    let refused = limited_kernel.refuses bare (add_op limited_kernel reader idle) 5 in
    ((refused ≡ false)
      × ((j : ℕ)
          → limited_kernel.watched l'.kernel j
            ≡ (if j == 5 then some (mask limited_kernel reader) else limited_kernel.watched bare j))
      × InSync limited_kernel l')
    ⊎ ((refused ≡ true)
        × ((j : ℕ) → limited_kernel.watched l'.kernel j ≡ limited_kernel.watched bare j)
        × (contains 5 l'.listen_fds ≡ true)
        × (InSync limited_kernel l' ↔ (contains 5 idle.listen_fds ≡ true)))
unfolding make_fd_event
add_to_epoll-InSync_example = add_to_epoll-InSync limited_kernel reader idle idle-InSync

abbrev watching : EventLoop Kernel
watching = add_to_epoll kernel reader idle

abbrev one_ready : List Ready
one_ready = record { event = some 0; fired_in = true; fired_out = false; fired_err = false } ∷ []

-- Callbacks that leave the loop alone.
abbrev quiet : ℕ → Events × EventLoop Kernel → Events × EventLoop Kernel
quiet f s = s

abbrev busy : EventLoop Kernel
busy = record watching { pending_tasks = callback (some 40) ∷ add_epoll 0 ∷ [] }

abbrev machine : Machine Kernel
machine = record { events = λ p. reader; event_loop = busy; running = []; ran = [] }

-- Another thread adds a task while the first one runs.
abbrev schedule : List Step
schedule = take ∷ run ∷ post (delete_epoll 0) ∷ run ∷ wait (some one_ready) ∷ take ∷ run ∷ []

steps-tasks_example :
    tasks kernel quiet (steps kernel quiet schedule machine)
    ≡ tasks kernel quiet machine ++ all_added kernel quiet (λ f s. []) schedule machine
steps-tasks_example =
    steps-tasks kernel quiet (λ f s. []) (λ f s. sym (append-nil s.1.pending_tasks)) schedule
      machine
