-- ===== src/Common/Log/Steps.antt =====
-- `syncLoop` of log.cc in the steps between its locks: a buffer is swapped out under the lock of the
-- logger, and what was in it is pushed to the thread's batches under the lock of these, first for the
-- messages of the library, then for those of the application. Meanwhile messages come and the threads
-- go on. One thread at a time is in `syncLoop`: the timer's, or that of a `flush`. A turn of a thread
-- is one step: it takes its batch under the lock, and only the thread itself has the batch and the file
-- from there on, while others add behind the batches that are left. Each step is taken to have its
-- data to itself; the code releases `m_mutex` a second time where it means `m_app_mutex`, which may be
-- while another thread has it, and holds `m_app_mutex` up to the end, which only rules steps out.
use my_rocket.Base.{
  ℕ, ◌≡◌, refl, sym, ap, ◌∙◌, true, List, [], ◌∷◌, ◌++◌, Text, append-nil, append_assoc,
}
use my_rocket.Common.Log.{
  AsyncLogger, Logger, push_log, push_app_log, push_log_buffer, joined, hand_over, sync_loop, turn,
  stop,
}
use my_rocket.Common.Log.Order.{
  waiting, waiting-append, joined-append, stream, stream-turn, stream-push, push_log_async,
}

-- Where `syncLoop` stands: not called, behind the first swap, the first push, and the second swap.
pub data Phase : Type 0 where
  idle swapped pushed app_swapped : Phase

-- `tmp` is `tmp_vec`, and then `tmp_vec2`.
pub record Syncing : Type 0 where
  pub logger : Logger
  pub phase : Phase
  pub tmp : List Text

pub data Step : Type 0 where
  log app_log : Text → Step
  sync : Step
  turns app_turns : Text → Step
  stops : Step

-- The next step of `syncLoop`.
unfoldable pub sync_step : Phase → Syncing → Syncing
unfolding hand_over
sync_step idle s = record s {
  phase = swapped;
  tmp = s.logger.buffer;
  logger = record (s.logger) { buffer = [] };
}
sync_step swapped s = record s {
  phase = pushed;
  tmp = [];
  logger = record (s.logger) { async = hand_over s.tmp s.logger.async };
}
sync_step pushed s = record s {
  phase = app_swapped;
  tmp = s.logger.app_buffer;
  logger = record (s.logger) { app_buffer = [] };
}
sync_step app_swapped s = record s {
  phase = idle;
  tmp = [];
  logger = record (s.logger) { app_async = hand_over s.tmp s.logger.app_async };
}

abbrev on_logger : (Logger → Logger) → Syncing → Syncing
on_logger f s = record s { logger = f s.logger }

module _ (tell : List (Text × Text) → Text → ℕ) where
  unfoldable pub step : Step → Syncing → Syncing
  unfolding sync_step push_log push_app_log turn stop
  step (log msg) s = on_logger (push_log msg) s
  step (app_log msg) s = on_logger (push_app_log msg) s
  step sync s = sync_step s.phase s
  step (turns date) s = on_logger (λ g. record g { async = turn tell date g.async }) s
  step (app_turns date) s = on_logger (λ g. record g { app_async = turn tell date g.app_async }) s
  step stops s = on_logger (λ g. record g { async = stop g.async; app_async = stop g.app_async }) s

  unfoldable pub steps : List Step → Syncing → Syncing
  unfolding step
  steps [] s = s
  steps (x ∷ xs) s = steps xs (step x s)

  -- The vector, if it holds messages of the library, and if it holds those of the application.
  abbrev pub in_hand : Syncing → List Text
  in_hand s = elim s.phase [ idle ↦ [] | swapped ↦ s.tmp | pushed ↦ [] | app_swapped ↦ [] ]

  abbrev pub app_in_hand : Syncing → List Text
  app_in_hand s = elim s.phase [ idle ↦ [] | swapped ↦ [] | pushed ↦ [] | app_swapped ↦ s.tmp ]

  -- What there is of each kind, in order: written, in batches, in the vector, and in the buffer.
  abbrev pub rpc_stream : Syncing → Text
  rpc_stream s = stream s.logger.async (in_hand s ++ s.logger.buffer)

  abbrev pub app_stream : Syncing → Text
  app_stream s = stream s.logger.app_async (app_in_hand s ++ s.logger.app_buffer)

  abbrev pub said : Step → Text
  said (log msg) = msg
  said (app_log msg) = []
  said sync = []
  said (turns date) = []
  said (app_turns date) = []
  said stops = []

  abbrev pub app_said : Step → Text
  app_said (log msg) = []
  app_said (app_log msg) = msg
  app_said sync = []
  app_said (turns date) = []
  app_said (app_turns date) = []
  app_said stops = []

  unfoldable pub messages : List Step → Text
  messages [] = []
  messages (x ∷ xs) = said x ++ messages xs

  unfoldable pub app_messages : List Step → Text
  app_messages [] = []
  app_messages (x ∷ xs) = app_said x ++ app_messages xs

  handed :
      (l : AsyncLogger) (xs buffer : List Text)
      → stream (hand_over xs l) buffer ≡ stream l (xs ++ buffer)
  unfolding hand_over push_log_buffer waiting joined
  handed l [] buffer = refl
  handed l (t ∷ ts) buffer =
      simp (
        waiting-append l.batches ((t ∷ ts) ∷ []),
        joined-append ts buffer,
        append_assoc,
        append-nil,
      )

  sync-stream :
      (p : Phase) (s : Syncing)
      → s.phase ≡ p
      → (rpc_stream (sync_step p s) ≡ rpc_stream s)
        × (app_stream (sync_step p s) ≡ app_stream s)
        × ((sync_step p s).logger.is_async ≡ s.logger.is_async)
  unfolding sync_step
  sync-stream idle s e = rw e (ap (stream s.logger.async) (append-nil s.logger.buffer), refl, refl)
  sync-stream swapped s e = rw e (handed s.logger.async s.tmp s.logger.buffer, refl, refl)
  sync-stream pushed s e =
      rw e (refl, ap (stream s.logger.app_async) (append-nil s.logger.app_buffer), refl)
  sync-stream app_swapped s e =
      rw e (refl, handed s.logger.app_async s.tmp s.logger.app_buffer, refl)

  pushed_behind :
      (l : AsyncLogger) (hand buffer : List Text) (msg : Text)
      → stream l (hand ++ (buffer ++ msg ∷ [])) ≡ stream l (hand ++ buffer) ++ msg
  pushed_behind l hand buffer msg =
      ap (stream l) (sym (append_assoc hand buffer (msg ∷ []))) ∙ stream-push l (hand ++ buffer) msg

  step-stream :
      (x : Step) (s : Syncing)
      → s.logger.is_async ≡ true
      → ((step x s).logger.is_async ≡ true)
        × (rpc_stream (step x s) ≡ rpc_stream s ++ said x)
        × (app_stream (step x s) ≡ app_stream s ++ app_said x)
  unfolding step
  step-stream (log msg) s h =
      rw (push_log_async msg s.logger h)
        (h, pushed_behind s.logger.async (in_hand s) s.logger.buffer msg, sym (append-nil _))
  step-stream (app_log msg) s h =
      unfold push_app_log in
      (
        h,
        sym (append-nil _),
        pushed_behind s.logger.app_async (app_in_hand s) s.logger.app_buffer msg,
      )
  step-stream sync s h =
      let (rpc, app, still) = sync-stream s.phase s refl in
      (still ∙ h, rpc ∙ sym (append-nil _), app ∙ sym (append-nil _))
  step-stream (turns date) s h = (
    h,
    stream-turn tell date s.logger.async (in_hand s ++ s.logger.buffer) ∙ sym (append-nil _),
    sym (append-nil _),
  )
  step-stream (app_turns date) s h = (
    h,
    sym (append-nil _),
    stream-turn tell date s.logger.app_async (app_in_hand s ++ s.logger.app_buffer)
        ∙ sym (append-nil _),
  )
  step-stream stops s h = unfold stop in (h, sym (append-nil _), sym (append-nil _))

  -- With one thread at a time in `syncLoop`, with each step having its data to itself, and however its steps between the locks are interleaved with
  -- messages, turns of the two threads and their stops, no message is lost, doubled or reordered between
  -- files, batches, the vector of `syncLoop` and the buffer: for each kind, what these hold in this order is
  -- what they held before, followed by the messages since.
  pub steps-stream :
      (xs : List Step) (s : Syncing)
      → s.logger.is_async ≡ true
      → (rpc_stream (steps xs s) ≡ rpc_stream s ++ messages xs)
        × (app_stream (steps xs s) ≡ app_stream s ++ app_messages xs)
  unfolding steps messages app_messages
  steps-stream [] s h = (sym (append-nil _), sym (append-nil _))
  steps-stream (x ∷ xs) s h =
      let (still, rpc, app) = step-stream x s h in
      let (rpc', app') = steps-stream xs (step x s) still in
      (
        rpc'
            ∙ (ap (λ t. t ++ messages xs) rpc ∙ append_assoc (rpc_stream s) (said x) (messages xs)),
        app'
            ∙ (ap (λ t. t ++ app_messages xs) app
                ∙ append_assoc (app_stream s) (app_said x) (app_messages xs)),
      )

  -- Its four steps on end are `sync_loop`.
  pub sync_steps-sync_loop :
      (g : Logger)
      → steps (sync ∷ sync ∷ sync ∷ sync ∷ []) (record { logger = g; phase = idle; tmp = [] })
        ≡ record { logger = sync_loop g; phase = idle; tmp = [] }
  unfolding steps step sync_step sync_loop
  sync_steps-sync_loop g = refl
