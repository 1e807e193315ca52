-- ===== src/Net/EventLoop/Queue.antt =====
-- What a round of `EventLoop::loop` of eventloop.cc queues, in which order.
use my_rocket.Base.{
  ℕ, ◌≡◌, refl, sym, ap, ◌∙◌, Bool, true, false, List, [], ◌∷◌, ◌++◌, if◌then◌else◌, Option, none,
  some, arith, append-nil, append_assoc, Option-cases, inl, inr,
}
use my_rocket.Net.FdEvent.{FdEvent, in_event, out_event, handler}
use my_rocket.Net.EventLoop.{
  Epoll, EventLoop, Events, Task, callback, Ready, add_task, delete_to_epoll, queue_ready,
  queue_all,
}

-- The handlers of one ready event: read, write, and for an error with a handler write again.
abbrev pub if_fired : Bool → List Task → List Task
if_fired true ts = ts
if_fired false ts = []

abbrev pub handlers : Events → Ready → List Task
handlers events r = elim r.event [
  | none ↦ []
  | some p ↦
      if_fired r.fired_in (callback (events p).read_callback ∷ [])
      ++ (if_fired r.fired_out (callback (events p).write_callback ∷ [])
          ++ if_fired r.fired_err (elim (events p).error_callback [
            | none ↦ []
            | some _ ↦ callback (events p).write_callback ∷ []
          ]))
]

abbrev pub all_handlers : Events → List Ready → List Task
all_handlers events [] = []
all_handlers events (r ∷ rs) = handlers events r ++ all_handlers events rs

module _ {K : Type 0} (epoll : Epoll K) where
  pub pending-delete :
      (e : FdEvent) (l : EventLoop K) → (delete_to_epoll epoll e l).pending_tasks ≡ l.pending_tasks
  unfolding delete_to_epoll
  pending-delete e l = ground arith

  module _ (events : Events) (l : EventLoop K) where
    fired :
        (p : ℕ) (a b : Bool)
        → let l1 = if a then add_task (callback (handler (events p) in_event)) false l else l in
          (if b
            then add_task (callback (handler (events p) out_event)) false l1
            else l1).pending_tasks
          ≡ l.pending_tasks
            ++ (if_fired a (callback (events p).read_callback ∷ [])
                ++ if_fired b (callback (events p).write_callback ∷ []))
    unfolding add_task handler
    fired p true true = simp append_assoc
    fired p true false = refl
    fired p false true = refl
    fired p false false = sym (append-nil l.pending_tasks)

    queued :
        (o : Option ℕ) (a b c : Bool)
        → let r : Ready = record { event = o; fired_in = a; fired_out = b; fired_err = c } in
          (queue_ready epoll events r l).pending_tasks ≡ l.pending_tasks ++ handlers events r
    unfolding queue_ready
    queued none a b c = sym (append-nil l.pending_tasks)
    queued (some p) a b true = elim (Option-cases (events p).error_callback) [
      | inl e ↦ unfold handler in simp (e, pending-delete, append-nil) (fired p a b)
      | inr (f, e) ↦
          unfold handler add_task in simp (e, pending-delete, fired p a b, append_assoc) refl
    ]
    queued (some p) a b false = simp append-nil (fired p a b)

  pending-queue_ready :
      (events : Events) (r : Ready) (l : EventLoop K)
      → (queue_ready epoll events r l).pending_tasks ≡ l.pending_tasks ++ handlers events r
  pending-queue_ready events r l = queued events l r.event r.fired_in r.fired_out r.fired_err

  -- A round appends the handlers of the ready events to the queue in the order of the events: read
  -- before write, the rest of the queue kept. An error never queues the error handler: where there
  -- is one, the write handler is queued in its place.
  pub pending-queue_all :
      (events : Events) (rs : List Ready) (l : EventLoop K)
      → (queue_all epoll events rs l).pending_tasks ≡ l.pending_tasks ++ all_handlers events rs
  unfolding queue_all
  pending-queue_all events [] l = sym (append-nil l.pending_tasks)
  pending-queue_all events (r ∷ rs) l =
      pending-queue_all events rs (queue_ready epoll events r l)
      ∙ ap (λ q. q ++ all_handlers events rs) (pending-queue_ready events r l)
      ∙ append_assoc l.pending_tasks (handlers events r) (all_handlers events rs)
