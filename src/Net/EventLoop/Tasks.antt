-- ===== src/Net/EventLoop/Tasks.antt =====
-- The queue of tasks of eventloop.cc, in small steps: the loop takes the queue, runs what it has taken one
-- by one and waits, while other threads add tasks at any time. `ran` keeps the tasks that have run.
use my_rocket.Base.{
  ℕ, ◌≡◌, refl, sym, ap, ◌∙◌, Bool, true, false, List, [], ◌∷◌, ◌++◌, if◌then◌else◌, Option, none,
  some, arith, append-nil, append_assoc, Bool-cases, inl, inr, length, replicate,
}
use my_rocket.Net.FdEvent.{FdEvent}
use my_rocket.Net.EventLoop.{
  Epoll, EventLoop, Events, Task, callback, add_epoll, delete_epoll, Ready, add_task, add_to_epoll,
  queue_all, run_task, run_tasks, round,
}
use my_rocket.Net.EventLoop.Queue.{all_handlers, pending-queue_all, pending-delete}

pub record Machine (K : Type 0) : Type 0 where
  pub events : Events
  pub event_loop : EventLoop K
  pub running : List Task
  pub ran : List Task

pub data Step : Type 0 where
  take : Step
  run : Step
  wait : Option (List Ready) → Step
  post : Task → Step

pending-add :
    {K : Type 0} (epoll : Epoll K) (e : FdEvent) (l : EventLoop K)
    → (add_to_epoll epoll e l).pending_tasks ≡ l.pending_tasks
unfolding add_to_epoll
pending-add epoll e l = refl

pending-add_task :
    {K : Type 0} (t : Task) (wake : Bool) (l : EventLoop K)
    → (add_task t wake l).pending_tasks ≡ l.pending_tasks ++ t ∷ []
unfolding add_task
pending-add_task t wake l = ground arith

module _ {K : Type 0} (epoll : Epoll K)
    (call : ℕ → Events × EventLoop K → Events × EventLoop K) where
  -- A step that is not the loop's next one does nothing.
  unfoldable pub step : Step → Machine K → Machine K
  unfolding run_task queue_all add_task
  step take m = elim m.running [
    | [] ↦ if m.event_loop.stop_flag then m else record m {
      event_loop = record (m.event_loop) { pending_tasks = [] };
      running = m.event_loop.pending_tasks;
    }
    | _ ∷ _ ↦ m
  ]
  step run m = elim m.running [
    | [] ↦ m
    | t ∷ ts ↦
        let s = run_task epoll call t (m.events, m.event_loop) in
        record m { events = s.0; event_loop = s.1; running = ts; ran = m.ran ++ t ∷ [] }
  ]
  step (wait none) m = m
  step (wait (some rs)) m = elim m.running [
    | [] ↦ record m { event_loop = queue_all epoll m.events rs m.event_loop }
    | _ ∷ _ ↦ m
  ]
  step (post t) m = record m { event_loop = add_task t true m.event_loop }

  unfoldable pub steps : List Step → Machine K → Machine K
  unfolding step
  steps [] m = m
  steps (s ∷ ss) m = steps ss (step s m)

  -- All tasks, in order: run, taken, and in the queue.
  abbrev pub tasks : Machine K → List Task
  tasks m = m.ran ++ (m.running ++ m.event_loop.pending_tasks)

  module _ (adds : ℕ → Events × EventLoop K → List Task) where
    -- The tasks that a step adds.
    unfoldable pub added_by : Task → Events × EventLoop K → List Task
    added_by (callback none) s = []
    added_by (callback (some f)) s = adds f s
    added_by (add_epoll p) s = []
    added_by (delete_epoll p) s = []

    unfoldable pub added : Step → Machine K → List Task
    unfolding added_by
    added take m = []
    added run m = elim m.running [ [] ↦ [] | t ∷ ts ↦ added_by t (m.events, m.event_loop) ]
    added (wait none) m = []
    added (wait (some rs)) m = elim m.running [ [] ↦ all_handlers m.events rs | _ ∷ _ ↦ [] ]
    added (post t) m = t ∷ []

    unfoldable pub all_added : List Step → Machine K → List Task
    unfolding added
    all_added [] m = []
    all_added (s ∷ ss) m = added s m ++ all_added ss (step s m)

    module _
        (appends : (f : ℕ) (s : Events × EventLoop K)
          → (call f s).1.pending_tasks ≡ s.1.pending_tasks ++ adds f s) where
      pending-run_task :
          (t : Task) (events : Events) (l : EventLoop K)
          → (run_task epoll call t (events, l)).1.pending_tasks
            ≡ l.pending_tasks ++ added_by t (events, l)
      unfolding run_task added_by
      pending-run_task (callback none) events l = sym (append-nil l.pending_tasks)
      pending-run_task (callback (some f)) events l = appends f (events, l)
      pending-run_task (add_epoll p) events l =
          pending-add epoll (events p) l ∙ sym (append-nil l.pending_tasks)
      pending-run_task (delete_epoll p) events l =
          pending-delete epoll (events p) l ∙ sym (append-nil l.pending_tasks)

      step_at :
          (st : Step) (events : Events) (l : EventLoop K) (running ran : List Task)
          → let m : Machine K = record {
            events = events;
            event_loop = l;
            running = running;
            ran = ran;
          } in
            tasks (step st m) ≡ tasks m ++ added st m
      unfolding step added
      step_at take events l [] ran = elim (Bool-cases l.stop_flag) [
        | inl e ↦ rw e (sym (append-nil _))
        | inr e ↦ rw e (sym (append_assoc ran l.pending_tasks []))
      ]
      step_at take events l (t ∷ ts) ran = sym (append-nil _)
      step_at run events l [] ran = sym (append-nil _)
      step_at run events l (t ∷ ts) ran = simp (pending-run_task t events l, append_assoc)
      step_at (wait none) events l running ran = sym (append-nil _)
      step_at (wait (some rs)) events l [] ran =
          simp (pending-queue_all epoll events rs l, append_assoc)
      step_at (wait (some rs)) events l (t ∷ ts) ran = sym (append-nil _)
      step_at (post t) events l running ran = simp (pending-add_task t true l, append_assoc)

      -- Where callbacks only add tasks to the queue, no task is lost, run twice or overtaken: after any
      -- steps of the loop and of the threads that add tasks, the tasks that have run, those that are
      -- taken and those in the queue are, in this order, those that there were, followed by all that
      -- were added since.
      pub steps-tasks :
          (ss : List Step) (m : Machine K) → tasks (steps ss m) ≡ tasks m ++ all_added ss m
      unfolding steps all_added
      steps-tasks [] m = sym (append-nil (tasks m))
      steps-tasks (st ∷ ss) m =
          steps-tasks ss (step st m)
          ∙ (ap (λ ts. ts ++ all_added ss (step st m))
                (step_at st m.events m.event_loop m.running m.ran)
              ∙ append_assoc (tasks m) (added st m) (all_added ss (step st m)))

  -- A run for each task that was taken.
  runs :
      (ts : List Task) (ss : List Step) (events : Events) (l : EventLoop K) (ran : List Task)
      → let s = run_tasks epoll call ts (events, l) in
        steps
          (replicate (length ts) run ++ ss)
          (record { events = events; event_loop = l; running = ts; ran = ran })
        ≡ steps ss (record { events = s.0; event_loop = s.1; running = []; ran = ran ++ ts })
  unfolding steps step run_tasks
  runs [] ss events l ran =
      ap (λ ts. steps ss (record { events = events; event_loop = l; running = []; ran = ts }))
        (sym (append-nil ran))
  runs (t ∷ ts) ss events l ran =
      let s = run_task epoll call t (events, l) in
      runs ts ss s.0 s.1 (ran ++ t ∷ [])
      ∙ ap
          (λ (us : List Task).
            let s' = run_tasks epoll call ts s in
            steps ss (record { events = s'.0; event_loop = s'.1; running = []; ran = us }))
          (append_assoc ran (t ∷ []) ts)

  -- The wait, with nothing left to run.
  waited :
      (w : Option (List Ready)) (events : Events) (l : EventLoop K) (ran : List Task)
      → steps (wait w ∷ []) (record { events = events; event_loop = l; running = []; ran = ran })
        ≡ record {
          events = events;
          event_loop = elim w [ none ↦ l | some rs ↦ queue_all epoll events rs l ];
          running = [];
          ran = ran;
        }
  unfolding steps step
  waited none events l ran = refl
  waited (some rs) events l ran = refl

  round_lem :
      (w : Option (List Ready)) (events : Events) (l : EventLoop K)
      → let s = run_tasks epoll call l.pending_tasks (events, record l { pending_tasks = [] }) in
        round epoll call w (events, l)
        ≡ (s.0, elim w [ none ↦ s.1 | some rs ↦ queue_all epoll s.0 rs s.1 ])
  unfolding round
  round_lem none events l = refl
  round_lem (some rs) events l = refl

  -- A round of a loop that is not stopped is the step that takes the queue, a run for each task in it and
  -- the wait: every task that was in the queue has run, once and in order, when the round ends.
  pub steps-round :
      (w : Option (List Ready)) (events : Events) (l : EventLoop K) (ran : List Task)
      → l.stop_flag ≡ false
      → let s = round epoll call w (events, l) in
        steps
          (take ∷ (replicate (length l.pending_tasks) run ++ wait w ∷ []))
          (record { events = events; event_loop = l; running = []; ran = ran })
        ≡ record { events = s.0; event_loop = s.1; running = []; ran = ran ++ l.pending_tasks }
  steps-round w events l ran going =
      let queue = l.pending_tasks in
      let bare = record l { pending_tasks = [] } in
      let s = run_tasks epoll call queue (events, bare) in
      let ss = replicate (length queue) run ++ wait w ∷ [] in
      let taken : steps (take ∷ ss)
            (record { events = events; event_loop = l; running = []; ran = ran })
          ≡ steps ss (record { events = events; event_loop = bare; running = queue; ran = ran }) =
        unfold steps step in rw going refl in
      taken
      ∙ (runs queue (wait w ∷ []) events bare ran
          ∙ (waited w s.0 s.1 (ran ++ queue)
              ∙ ap
                  (λ (r : Events × EventLoop K). record {
                    events = r.0;
                    event_loop = r.1;
                    running = [];
                    ran = ran ++ queue;
                  })
                  (sym (round_lem w events l))))
