-- ===== src/Common/Log/Order.antt =====
-- What log.cc writes, and in which order.
use my_rocket.Base.{
  ℕ, ◌≡◌, inl, inr, refl, sym, ap, ◌∙◌, true, false, List, [], ◌∷◌, ◌++◌, Text, append-nil,
  append_assoc, arith, Bool-cases,
}
use my_rocket.Common.Log.{
  AsyncLogger, Logger, push_log_buffer, stop, joined, new_day, open_file, take_batch, turn,
  push_log, push_app_log, hand_over, sync_loop, flush,
}

-- All that a thread has written, and all that waits in its batches.
unfoldable pub written : List (Text × Text) → Text
written [] = []
written ((f, t) ∷ ws) = t ++ written ws

unfoldable pub waiting : List (List Text) → Text
unfolding joined
waiting [] = []
waiting (b ∷ bs) = joined b ++ waiting bs

pub written-append : (xs ys : List (Text × Text)) → written (xs ++ ys) ≡ written xs ++ written ys
unfolding written
written-append [] ys = refl
written-append ((f, t) ∷ xs) ys = simp (written-append xs ys, append_assoc)

pub waiting-append : (xs ys : List (List Text)) → waiting (xs ++ ys) ≡ waiting xs ++ waiting ys
unfolding waiting
waiting-append [] ys = refl
waiting-append (x ∷ xs) ys = simp (waiting-append xs ys, append_assoc)

pub joined-append : (xs ys : List Text) → joined (xs ++ ys) ≡ joined xs ++ joined ys
unfolding joined
joined-append [] ys = refl
joined-append (x ∷ xs) ys = simp (joined-append xs ys, append_assoc)

-- Everything that a logger has been given and has not lost, in order: written, waiting in batches, and
-- in the buffer.
abbrev pub stream : AsyncLogger → List Text → Text
stream l buffer = written l.writes ++ (waiting l.batches ++ joined buffer)

new_day_keeps : (date : Text) (l : AsyncLogger) → (new_day date l).stop_flag ≡ l.stop_flag
new_day_keeps date l = ground arith

-- A batch taken is written behind what was written.
stream-take_batch :
    (tell : List (Text × Text) → Text → ℕ) (date : Text) (bs : List (List Text)) (l : AsyncLogger)
    → l.batches ≡ bs
    → written (take_batch tell date bs l).writes ++ waiting (take_batch tell date bs l).batches
      ≡ written l.writes ++ waiting bs
unfolding take_batch waiting written
stream-take_batch tell date [] l e = ap (λ bs. written l.writes ++ waiting bs) e
stream-take_batch tell date (b ∷ bs) l e =
    simp (
      written-append l.writes (((open_file tell date l).0, joined b) ∷ []),
      append_assoc,
      append-nil,
    )

pub turn_going :
    (tell : List (Text × Text) → Text → ℕ) (date : Text) (l : AsyncLogger)
    → l.ended ≡ false
    → turn tell date l ≡ take_batch tell date l.batches l
unfolding turn
turn_going tell date l e = simp e

pub turn_ended :
    (tell : List (Text × Text) → Text → ℕ) (date : Text) (l : AsyncLogger)
    → l.ended ≡ true
    → turn tell date l ≡ l
unfolding turn
turn_ended tell date l e = simp e

pub stream-turn :
    (tell : List (Text × Text) → Text → ℕ) (date : Text) (l : AsyncLogger) (buffer : List Text)
    → stream (turn tell date l) buffer ≡ stream l buffer
stream-turn tell date l buffer = elim (Bool-cases l.ended) [
  | inl e ↦ rw (turn_ended tell date l e) refl
  | inr e ↦
      let taken = stream-take_batch tell date l.batches l refl in
      rw (turn_going tell date l e) (
        sym (append_assoc _ _ (joined buffer))
        ∙ (ap (λ t. t ++ joined buffer) taken ∙ append_assoc _ _ (joined buffer)))
]

pub stream-hand_over :
    (l : AsyncLogger) (buffer : List Text) → stream (hand_over buffer l) [] ≡ stream l buffer
unfolding hand_over push_log_buffer waiting joined
stream-hand_over l [] = refl
stream-hand_over l (t ∷ ts) = simp (waiting-append l.batches ((t ∷ ts) ∷ []), append-nil)

pub stream-push :
    (l : AsyncLogger) (buffer : List Text) (msg : Text)
    → stream l (buffer ++ msg ∷ []) ≡ stream l buffer ++ msg
unfolding joined
stream-push l buffer msg = simp (joined-append buffer (msg ∷ []), append_assoc, append-nil)

pub push_log_async :
    (msg : Text) (g : Logger)
    → g.is_async ≡ true
    → push_log msg g ≡ record g { buffer = g.buffer ++ msg ∷ [] }
unfolding push_log
push_log_async msg g h = simp h

-- What may happen to a logger: messages of both kinds, the timer's `syncLoop`, turns of the two threads,
-- each with the day's date, and `flush`.
pub data Event : Type 0 where
  log app_log : Text → Event
  sync : Event
  turns app_turns : Text → Event
  flushed : Event

-- The message of an event, of either kind, and those of several, in order.
abbrev pub said : Event → Text
said (log msg) = msg
said (app_log msg) = []
said sync = []
said (turns date) = []
said (app_turns date) = []
said flushed = []

abbrev pub app_said : Event → Text
app_said (log msg) = []
app_said (app_log msg) = msg
app_said sync = []
app_said (turns date) = []
app_said (app_turns date) = []
app_said flushed = []

unfoldable pub messages : List Event → Text
messages [] = []
messages (e ∷ es) = said e ++ messages es

unfoldable pub app_messages : List Event → Text
app_messages [] = []
app_messages (e ∷ es) = app_said e ++ app_messages es

module _ (tell : List (Text × Text) → Text → ℕ) where
  unfoldable pub handle : Event → Logger → Logger
  unfolding push_log push_app_log sync_loop turn flush stop
  handle (log msg) g = push_log msg g
  handle (app_log msg) g = push_app_log msg g
  handle sync g = sync_loop g
  handle (turns date) g = record g { async = turn tell date g.async }
  handle (app_turns date) g = record g { app_async = turn tell date g.app_async }
  handle flushed g = flush g

  unfoldable pub handle_all : List Event → Logger → Logger
  unfolding handle
  handle_all [] g = g
  handle_all (e ∷ es) g = handle_all es (handle e g)

  abbrev pub rpc_stream : Logger → Text
  rpc_stream g = stream g.async g.buffer

  abbrev pub app_stream : Logger → Text
  app_stream g = stream g.app_async g.app_buffer

  handle-stream :
      (e : Event) (g : Logger)
      → g.is_async ≡ true
      → ((handle e g).is_async ≡ true)
        × (rpc_stream (handle e g) ≡ rpc_stream g ++ said e)
        × (app_stream (handle e g) ≡ app_stream g ++ app_said e)
  unfolding handle
  handle-stream (log msg) g h =
      rw (push_log_async msg g h) (h, stream-push g.async g.buffer msg, sym (append-nil _))
  handle-stream (app_log msg) g h =
      unfold push_app_log in (h, sym (append-nil _), stream-push g.app_async g.app_buffer msg)
  handle-stream sync g h =
      unfold sync_loop in
      (
        h,
        stream-hand_over g.async g.buffer ∙ sym (append-nil _),
        stream-hand_over g.app_async g.app_buffer ∙ sym (append-nil _),
      )
  handle-stream (turns date) g h =
      (h, stream-turn tell date g.async g.buffer ∙ sym (append-nil _), sym (append-nil _))
  handle-stream (app_turns date) g h =
      (h, sym (append-nil _), stream-turn tell date g.app_async g.app_buffer ∙ sym (append-nil _))
  handle-stream flushed g h =
      unfold flush sync_loop stop in
      (
        h,
        stream-hand_over g.async g.buffer ∙ sym (append-nil _),
        stream-hand_over g.app_async g.app_buffer ∙ sym (append-nil _),
      )

  -- However the calls of an asynchronous logger, its timer and its threads are interleaved, each call of
  -- `syncLoop` in one step, no message
  -- is lost, doubled or reordered between the files, the batches and the buffer: for each kind, what
  -- these hold in this order is what they held before, followed by the messages since.
  pub handle_all-stream :
      (es : List Event) (g : Logger)
      → g.is_async ≡ true
      → (rpc_stream (handle_all es g) ≡ rpc_stream g ++ messages es)
        × (app_stream (handle_all es g) ≡ app_stream g ++ app_messages es)
  unfolding handle_all messages app_messages
  handle_all-stream [] g h = (sym (append-nil _), sym (append-nil _))
  handle_all-stream (e ∷ es) g h =
      let (still, rpc, app) = handle-stream e g h in
      let (rpc', app') = handle_all-stream es (handle e g) still in
      (
        rpc'
            ∙ (ap (λ t. t ++ messages es) rpc ∙ append_assoc (rpc_stream g) (said e) (messages es)),
        app'
            ∙ (ap (λ t. t ++ app_messages es) app
                ∙ append_assoc (app_stream g) (app_said e) (app_messages es)),
      )
