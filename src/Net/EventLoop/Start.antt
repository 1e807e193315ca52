-- ===== src/Net/EventLoop/Start.antt =====
-- How a thread gets its loop: the constructor of eventloop.cc with `initWakeUpFdEevent`, `initTimer` and
-- the constructor of timer.cc, `GetCurrentEventLoop` and `addTimerEvent`; and the two handlers that
-- read a descriptor empty. What the system calls return is an argument, and `none` is a process that
-- ends by `exit`. `timerfd_create` is taken to succeed: the code does not look at its result.
use my_rocket.Base.{
  ltb, ◌+◌, ◌-◌, ◌∷◌, ℕ, zero, suc, ◌≡◌, ◌≢◌, refl, ◌∙◌, Bool, true, false, [], ◌==◌, if◌then◌else◌,
  ℤ, pos, negsuc, Option, none, some, arith, List, ap, ◌⊎◌, inl, inr,
}
use my_rocket.Net.FdEvent.{FdEvent, in_event, listen, make_fd_event}
use my_rocket.Net.Timer.Order.{pending-add, events-add}
use my_rocket.Net.Timer.{Entry, Timer, Store, add_timer_event, update, make_event, emplace, rearm}
use my_rocket.Net.EventLoop.{
  Epoll, CtlOp, EventLoop, Interest, contains, add_to_epoll, add_epoll_event,
}
use my_rocket.Net.EventLoop.Watching.{InSync, add_to_epoll-taken}

-- The results of `getThreadId`, `epoll_create`, `eventfd` and `timerfd_create`.
pub record Calls : Type 0 where
  pub thread_id : ℕ
  pub epoll_fd : ℤ
  pub wakeup_fd : ℤ
  pub timer_fd : ℕ

-- A loop with its events and its timer.
pub record ThreadLoop (K : Type 0) : Type 0 where
  pub core : EventLoop K
  pub epoll_fd : ℤ
  pub wakeup_fd_event : FdEvent
  pub timer_event : FdEvent
  pub timer : Timer

-- `listen` for reading, without an error handler.
abbrev pub reads : ℕ → ℕ → FdEvent
reads fd f = listen in_event (some f) none (make_fd_event fd)

-- For reading only.
abbrev pub for_reading : Interest
for_reading = record { epoll_in = true; epoll_out = false }

module _ {K : Type 0} where
  unfoldable pub add_loop_timer : ℕ → ℕ → ThreadLoop K → ThreadLoop K
  add_loop_timer now p l = record l { timer = add_timer_event now p l.timer }

  -- A new `TimerEvent` that repeats, at a place `p` of its own, and `addTimerEvent`; the clock is read as
  -- `now` for the event, and as `again` when the timer is armed.
  unfoldable pub add_repeated_event : ℕ → ℕ → ℕ → ℕ → ℕ → ThreadLoop K → ThreadLoop K
  unfolding add_loop_timer
  add_repeated_event now again p interval f l =
      let t = l.timer in
      add_loop_timer again p (record l {
        timer = record t { events = update t.events p (make_event now interval true (some f)) };
      })

  -- The first event of a timer.
  pub first_repeated :
      (now again p interval f : ℕ) (heap : Store) (l : ThreadLoop K)
      → l.timer ≡ record { pending = []; armed = none; events = heap }
      → let event = make_event now interval true (some f) in
        let t = (add_repeated_event now again p interval f l).timer in
        (t.pending ≡ (now + interval, p) ∷ [])
        × (t.events p ≡ event)
        × (t.armed ≡ some (if ltb again (now + interval) then now + interval - again else 100))
  unfolding add_repeated_event add_loop_timer add_timer_event make_event emplace rearm
  first_repeated now again p interval f heap l fresh =
      let same : (p == p) ≡ true = ground arith in
      rw fresh (rw same refl, rw same refl, rw same refl)

  -- An event beside those that the timer has, or the first one.
  pub added_event :
      (now again p interval f : ℕ) (l : ThreadLoop K)
      → let event = make_event now interval true (some f) in
        let time = now + interval in
        let t = (add_repeated_event now again p interval f l).timer in
        (t.pending ≡ emplace time p l.timer.pending)
        × (t.events ≡ update l.timer.events p event)
        × (((l.timer.pending ≡ [])
              × (t.armed ≡ some (if ltb again time then time - again else 100)))
            ⊎ (l.timer.pending ≢ []))
  unfolding add_repeated_event add_loop_timer
  added_event now again p interval f l =
      let event = make_event now interval true (some f) in
      let t = record (l.timer) { events = update (l.timer.events) p event } in
      let same : (p == p) ≡ true = ground arith in
      let at_time : (t.events p).arrive_time ≡ now + interval = unfold make_event in rw same refl in
      (
        pending-add again p t ∙ ap (λ k. emplace k p l.timer.pending) at_time,
        events-add again p t,
        elim (list-cases l.timer.pending) [
          | inl none_waits ↦ inl (
            none_waits,
            unfold add_timer_event make_event emplace rearm in rw none_waits (rw same refl),
          )
          | inr some_wait ↦ inr some_wait
        ],
      )
    where
      list-cases : (m : List Entry) → (m ≡ []) ⊎ (m ≢ [])
      list-cases [] = inl refl
      list-cases (x ∷ m) = inr (λ e. cc)

module _ {K : Type 0} (epoll : Epoll K) where
  -- An event of one's own, added by the thread `tid`.
  abbrev pub add_own : ℕ → FdEvent → EventLoop K → EventLoop K
  add_own tid e l = add_epoll_event epoll tid (λ p. e) 0 l

  own_thread :
      (tid : ℕ) (e : FdEvent) (l : EventLoop K)
      → l.thread_id ≡ tid
      → add_own tid e l ≡ add_to_epoll epoll e l
  unfolding add_epoll_event
  own_thread tid e l same =
      let mine : (tid == l.thread_id) ≡ true = ground (arith, same) in rw mine refl

  -- The kernel refuses no call.
  abbrev pub Accepts : Type 0
  Accepts = (k : K) (op : CtlOp) (fd : ℕ) → epoll.refuses k op fd ≡ false

  -- Adding an event that listens for reading, on the loop's own thread.
  pub add_own_lem :
      (tid fd f : ℕ) (l : EventLoop K)
      → Accepts
      → l.thread_id ≡ tid
      → InSync epoll l
      → let l' = add_own tid (reads fd f) l in
        ((j : ℕ)
          → epoll.watched l'.kernel j
            ≡ (if j == fd then some for_reading else epoll.watched l.kernel j))
        × InSync epoll l'
        × (l'.thread_id ≡ tid)
        × (l'.pending_tasks ≡ l.pending_tasks)
  unfolding listen make_fd_event add_to_epoll
  add_own_lem tid fd f l accepts same s =
      let (watches, s') = add_to_epoll-taken epoll (reads fd f) l s (accepts l.kernel _ fd) in
      rw (own_thread tid (reads fd f) l same) (watches, s', same, refl)

-- `empty` is a kernel that watches nothing, `read_empty` and `on_timer` are the two callbacks, and `heap`
-- holds the timer events.
module _ {K : Type 0} (epoll : Epoll K) (empty : K) (read_empty on_timer : ℕ) (heap : Store) where
  unfoldable pub new_loop : ℕ → EventLoop K
  new_loop tid = record {
    thread_id = tid;
    kernel = empty;
    listen_fds = [];
    pending_tasks = [];
    stop_flag = false;
    is_looping = false;
    wakeups = 0;
  }

  unfoldable pub new_timer : Timer
  new_timer = record { pending = []; armed = none; events = heap }

  unfoldable pub init_wake_up : Calls → EventLoop K → Option (FdEvent × EventLoop K)
  init_wake_up c l = elim c.wakeup_fd [
    | negsuc n ↦ none
    | pos fd ↦ some (reads fd read_empty, add_own epoll c.thread_id (reads fd read_empty) l)
  ]

  unfoldable pub init_timer : Calls → EventLoop K → FdEvent × EventLoop K
  init_timer c l =
      (reads c.timer_fd on_timer, add_own epoll c.thread_id (reads c.timer_fd on_timer) l)

  unfoldable pub epoll_created : ℤ → Bool
  epoll_created (pos fd) = true
  epoll_created (negsuc zero) = false
  epoll_created (negsuc (suc n)) = true

  -- The constructor, on a thread whose `t_current_eventloop` is `current`.
  unfoldable pub make_loop : Option (ThreadLoop K) → Calls → Option (ThreadLoop K)
  unfolding new_loop init_wake_up init_timer epoll_created new_timer
  make_loop (some l) c = none
  make_loop none c =
      if epoll_created c.epoll_fd
      then elim (init_wake_up c (new_loop c.thread_id)) [
        | none ↦ none
        | some (wakeup_fd_event, l) ↦
            let (timer_event, l') = init_timer c l in
            some (record {
              core = l';
              epoll_fd = c.epoll_fd;
              wakeup_fd_event = wakeup_fd_event;
              timer_event = timer_event;
              timer = new_timer;
            })
      ]
      else none

  -- `GetCurrentEventLoop`: the loop, which is then the thread's.
  unfoldable pub get_current : Option (ThreadLoop K) → Calls → Option (ThreadLoop K)
  unfolding make_loop
  get_current (some l) c = some l
  get_current none c = make_loop none c

  module _ (nothing_watched : (j : ℕ) → epoll.watched empty j ≡ none) where
    new_loop-InSync : (tid : ℕ) → InSync epoll (new_loop tid)
    unfolding new_loop contains
    new_loop-InSync tid fd = ((λ p. cc), (λ n. absurd (n (nothing_watched fd))))

    epoll_created_lem : (x : ℤ) → x ≢ negsuc 0 → epoll_created x ≡ true
    unfolding epoll_created
    epoll_created_lem (pos n) h = refl
    epoll_created_lem (negsuc zero) h = absurd (h refl)
    epoll_created_lem (negsuc (suc n)) h = refl

    -- On a thread that has no loop, with an `epoll_create`, an `eventfd` and calls of `epoll_ctl` that succeed, the first
    -- `GetCurrentEventLoop` gives a loop that watches its wake-up descriptor and its timer, for reading,
    -- and nothing else; it lists exactly what the kernel watches, has no task and does not loop yet.
    -- A later call gives the same loop.
    pub get_current-first :
        (c : Calls) (fd : ℕ)
        → Accepts epoll
        → c.epoll_fd ≢ negsuc 0
        → c.wakeup_fd ≡ pos fd
        → (l : ThreadLoop K) × (get_current none c ≡ some l)
          × ((j : ℕ)
              → epoll.watched l.core.kernel j ≡ (
                  if j == c.timer_fd
                  then some for_reading
                  else if j == fd
                  then some for_reading
                  else none))
          × InSync epoll l.core
          × (l.core.pending_tasks ≡ [])
          × (l.core.thread_id ≡ c.thread_id)
          × (l.timer ≡ record { pending = []; armed = none; events = heap })
          × ((c' : Calls) → get_current (some l) c' ≡ some l)
    unfolding get_current
    get_current-first c fd accepts created woken =
        let tid = c.thread_id in
        let l0 = new_loop tid in
        let (watches1, s1, same1, tasks1) =
          add_own_lem epoll tid fd read_empty l0 accepts (unfold new_loop in refl)
            (new_loop-InSync tid) in
        let l1 = add_own epoll tid (reads fd read_empty) l0 in
        let (watches2, s2, same2, tasks2) =
          add_own_lem epoll tid c.timer_fd on_timer l1 accepts same1 s1 in
        let l : ThreadLoop K = record {
          core = add_own epoll tid (reads c.timer_fd on_timer) l1;
          epoll_fd = c.epoll_fd;
          wakeup_fd_event = reads fd read_empty;
          timer_event = reads c.timer_fd on_timer;
          timer = new_timer;
        } in
        let made : make_loop none c ≡ some l =
          unfold make_loop in rw (epoll_created_lem c.epoll_fd created, woken) refl in
        (
          l,
          made,
          λ j. rw (watches2 j, watches1 j) (unfold new_loop in rw (nothing_watched j) refl),
          s2,
          tasks2 ∙ (tasks1 ∙ (unfold new_loop in refl)),
          same2,
          unfold new_timer in refl,
          λ c'. refl,
        )
