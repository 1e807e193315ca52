-- ===== src/Net/EventLoop.antt =====
-- rocket/net/eventloop.h, eventloop.cc and wakeup_fd_event.cc. `FdEvent` pointers are numbers into a
-- store, which is read when a task runs. The kernel's interest list is the parameter `Epoll`, and
-- the callbacks that a task runs are the parameter `call`. `wakeups` is the sum of what is written to
-- the wake-up descriptor. The results of `epoll_wait` are given as lists of ready events.
pub mod Watching
pub mod Queue
pub mod Tasks
pub mod Start
pub mod Drain
pub mod Simple
mod Tests
use my_rocket.Base.{
  ℕ, suc, ◌+◌, ◌≡◌, ◌≢◌, Bool, true, false, not, List, [], ◌∷◌, ◌++◌, if◌then◌else◌, ◌==◌, Option,
  none, some, ◌||◌,
}
use my_rocket.Net.FdEvent.{FdEvent, TriggerEvent, in_event, out_event, error_event, handler}

pub data CtlOp : Type 0 where
  ctl_add ctl_mod ctl_del : CtlOp

-- The two bits of `epoll_event.events`.
pub record Interest : Type 0 where
  pub epoll_in : Bool
  pub epoll_out : Bool

-- `epoll_ctl`, and what the kernel watches for a descriptor. A call that returns -1 (`refuses`, such as
-- for want of memory, past the limit of watches, or for a descriptor that cannot be watched) changes
-- nothing; adding a descriptor that is there, changing or deleting one that is not, are errors too, of
-- which nothing is asked here.
pub record Epoll (K : Type 0) : Type 0 where
  pub ctl : K → CtlOp → ℕ → Interest → K
  pub refuses : K → CtlOp → ℕ → Bool
  pub watched : K → ℕ → Option Interest
  pub watched-refused :
      (k : K) (op : CtlOp) (fd j : ℕ) (e : Interest)
      → refuses k op fd ≡ true
      → watched (ctl k op fd e) j ≡ watched k j
  pub watched-add :
      (k : K) (fd j : ℕ) (e : Interest)
      → watched k fd ≡ none
      → refuses k ctl_add fd ≡ false
      → watched (ctl k ctl_add fd e) j ≡ (if j == fd then some e else watched k j)
  pub watched-mod :
      (k : K) (fd j : ℕ) (e : Interest)
      → watched k fd ≢ none
      → refuses k ctl_mod fd ≡ false
      → watched (ctl k ctl_mod fd e) j ≡ (if j == fd then some e else watched k j)
  pub watched-del :
      (k : K) (fd j : ℕ) (e : Interest)
      → watched k fd ≢ none
      → refuses k ctl_del fd ≡ false
      → watched (ctl k ctl_del fd e) j ≡ (if j == fd then none else watched k j)

abbrev pub Events : Type 0
Events = ℕ → FdEvent

-- A task is a callback, or one of the two closures that other threads queue.
pub data Task : Type 0 where
  callback : Option ℕ → Task
  add_epoll : ℕ → Task
  delete_epoll : ℕ → Task

pub record EventLoop (K : Type 0) : Type 0 where
  pub thread_id : ℕ
  pub kernel : K
  pub listen_fds : List ℕ
  pub pending_tasks : List Task
  pub stop_flag : Bool
  pub is_looping : Bool
  pub wakeups : ℕ

-- `std::set<int>`: `find`, `insert` and `erase`.
unfoldable pub contains : ℕ → List ℕ → Bool
contains fd [] = false
contains fd (x ∷ xs) = x == fd || contains fd xs

abbrev pub insert_fd : ℕ → List ℕ → List ℕ
insert_fd fd xs = if contains fd xs then xs else fd ∷ xs

unfoldable pub erase_fd : ℕ → List ℕ → List ℕ
erase_fd fd [] = []
erase_fd fd (x ∷ xs) = if x == fd then erase_fd fd xs else x ∷ erase_fd fd xs

-- One entry of `result_events`: the event, unless its pointer is null, and the bits that fired.
pub record Ready : Type 0 where
  pub event : Option ℕ
  pub fired_in : Bool
  pub fired_out : Bool
  pub fired_err : Bool

module _ {K : Type 0} where
  -- The eight bytes that are written, an `a` and seven zeros, are 97 on a little-endian machine.
  unfoldable pub wakeup : EventLoop K → EventLoop K
  wakeup l = record l { wakeups = l.wakeups + b'a' }

  unfoldable pub stop : EventLoop K → EventLoop K
  unfolding wakeup
  stop l = wakeup (record l { stop_flag = true })

  unfoldable pub add_task : Task → Bool → EventLoop K → EventLoop K
  unfolding wakeup
  add_task t is_wake_up l =
      let l' = record l { pending_tasks = l.pending_tasks ++ t ∷ [] } in
      if is_wake_up then wakeup l' else l'

  abbrev pub is_in_loop_thread : ℕ → EventLoop K → Bool
  is_in_loop_thread tid l = tid == l.thread_id

module _ {K : Type 0} (epoll : Epoll K) where
  -- The macro ADD_TO_EPOLL. The result of `epoll_ctl` is only logged: the descriptor is listed also if
  -- the call has failed.
  abbrev pub add_op : FdEvent → EventLoop K → CtlOp
  add_op e l = if contains e.fd l.listen_fds then ctl_mod else ctl_add

  unfoldable pub add_to_epoll : FdEvent → EventLoop K → EventLoop K
  add_to_epoll e l = record l {
    kernel =
        epoll.ctl l.kernel (add_op e l) e.fd
          (record { epoll_in = e.epoll_in; epoll_out = e.epoll_out });
    listen_fds = insert_fd e.fd l.listen_fds;
  }

  -- The macro DELETE_TO_EPOLL; the kernel ignores the event.
  unfoldable pub delete_to_epoll : FdEvent → EventLoop K → EventLoop K
  delete_to_epoll e l =
      if contains e.fd l.listen_fds
      then record l {
        kernel =
            epoll.ctl l.kernel ctl_del e.fd
              (record { epoll_in = e.epoll_in; epoll_out = e.epoll_out });
        listen_fds = erase_fd e.fd l.listen_fds;
      }
      else l

  -- `tid` is the thread that calls.
  unfoldable pub add_epoll_event : ℕ → Events → ℕ → EventLoop K → EventLoop K
  unfolding add_to_epoll add_task
  add_epoll_event tid events p l =
      if is_in_loop_thread tid l then add_to_epoll (events p) l else add_task (add_epoll p) true l

  unfoldable pub delete_epoll_event : ℕ → Events → ℕ → EventLoop K → EventLoop K
  unfolding delete_to_epoll add_task
  delete_epoll_event tid events p l =
      if is_in_loop_thread tid l
      then delete_to_epoll (events p) l
      else add_task (delete_epoll p) true l

  -- A ready event adds its handlers to the queue. After an error the event is deleted, and if it has
  -- an error handler the handler of OUT_EVENT is queued.
  unfoldable pub queue_ready : Events → Ready → EventLoop K → EventLoop K
  queue_ready events r l = elim r.event [
    | none ↦ l
    | some p ↦
        let e = events p in
        let l1 = if r.fired_in then add_task (callback (handler e in_event)) false l else l in
        let l2 = if r.fired_out then add_task (callback (handler e out_event)) false l1 else l1 in
        if r.fired_err
        then (let l3 = delete_to_epoll e l2 in
            elim (handler e error_event) [
              | none ↦ l3
              | some _ ↦ add_task (callback (handler e out_event)) false l3
            ])
        else l2
  ]

  unfoldable pub queue_all : Events → List Ready → EventLoop K → EventLoop K
  queue_all events [] l = l
  queue_all events (r ∷ rs) l = queue_all events rs (queue_ready events r l)

  module _ (call : ℕ → Events × EventLoop K → Events × EventLoop K) where
    unfoldable pub run_task : Task → Events × EventLoop K → Events × EventLoop K
    run_task (callback none) s = s
    run_task (callback (some f)) s = call f s
    run_task (add_epoll p) (events, l) = (events, add_to_epoll (events p) l)
    run_task (delete_epoll p) (events, l) = (events, delete_to_epoll (events p) l)

    unfoldable pub run_tasks : List Task → Events × EventLoop K → Events × EventLoop K
    run_tasks [] s = s
    run_tasks (t ∷ ts) s = run_tasks ts (run_task t s)

    -- One round of `while(!m_stop_flag)`: `none` is a failed `epoll_wait`.
    unfoldable pub round : Option (List Ready) → Events × EventLoop K → Events × EventLoop K
    round waited (events, l) =
        let (events', l') = run_tasks l.pending_tasks (events, record l { pending_tasks = [] }) in
        elim waited [ none ↦ (events', l') | some rs ↦ (events', queue_all events' rs l') ]

    -- `loop`, over the results of its waits; it ends by its flag, or where the list ends.
    unfoldable pub rounds : List (Option (List Ready)) → Events × EventLoop K → Events × EventLoop K
    rounds [] s = s
    rounds (w ∷ ws) s = let rest = rounds ws (round w s) in if (s.1).stop_flag then s else rest

    unfoldable pub loop : List (Option (List Ready)) → Events × EventLoop K → Events × EventLoop K
    loop ws (events, l) = rounds ws (events, record l { is_looping = true })
