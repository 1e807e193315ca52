-- ===== src/Rpc/Channel/Progress.antt =====
-- What each callback of rpc_channel.cc may do to the finished flag and to the number of runs.
use mathlib.Core.Path.{subst}
use my_rocket.Base.{
  ℕ, ◌+◌, ◌≡◌, ◌⊎◌, inl, inr, refl, sym, ap, ◌∙◌, Bool, true, List, [], ◌∷◌, ◌++◌, if◌then◌else◌,
  ◌==◌, ==_self, ℤ, none, some, Text, Outcome, ok, fault, stuck, ◌>>=◌, or_fault, arith, Bool-cases,
  Option-cases,
}
use my_rocket.Tcp.NetAddr.{Inet}
use my_rocket.Tcp.Client.{TcpClient, connect_event}
use my_rocket.Tcp.Connection.{TcpConnection}
use my_rocket.Coder.TinyPb.{TinyPbProtocol}
use my_rocket.Rpc.Dispatcher.{codes}
use my_rocket.Rpc.ErrorCode.{error_rpc_call_timeout}
use my_rocket.Rpc.Controller.{RpcController, set_error, set_finished, start_cancel}
use my_rocket.Rpc.Channel.{
  Call, change, call_back, fail, on_client, connect_done, response_done, run_callback,
  run_callbacks, time_out, Event, step, run_events, with_connection, timeout, connectable, writable,
  readable, is_zero, decimal_ℤ,
}

-- A chain that returns has a first part that returns.
pub >>=-eq-ok {ℓ κ} :
    {X : Type ℓ} {Y : Type κ} (first : Outcome X) (next : X → Outcome Y) {end : Y}
    → (first >>= next) ≡ ok end
    → (x : X) × (first ≡ ok x) × (next x ≡ ok end)
>>=-eq-ok (ok x) next e = (x, refl, e)
>>=-eq-ok fault next e = cc
>>=-eq-ok stuck next e = cc

abbrev pub IsFinished : ℕ → Call → Type 0
IsFinished p s = (s.controllers p).is_finished ≡ true

-- From `s` to `t`, in a call of the controller `p`: the channel keeps its controller, no closure runs once
-- the controller is finished, and it is finished when one has run.
pub record Progress (p : ℕ) (s t : Call) : Type 0 where
  pub own : t.channel.controller ≡ s.channel.controller
  pub frozen : IsFinished p s → IsFinished p t × (t.runs ≡ s.runs)
  pub moved : (t.runs ≡ s.runs) ⊎ ((t.runs ≡ s.runs + 1) × IsFinished p t)

pub Progress-trans : (p : ℕ) {s t u : Call} → Progress p s t → Progress p t u → Progress p s u
Progress-trans p a b = record {
  own = b.own ∙ a.own;
  frozen = λ h. ((b.frozen (a.frozen h).0).0, (b.frozen (a.frozen h).0).1 ∙ (a.frozen h).1);
  moved = elim a.moved [
    | inl e ↦ elim b.moved [ inl f ↦ inl (f ∙ e) | inr (f, h) ↦ inr (f ∙ ap (λ n. n + 1) e, h) ]
    | inr (e, h) ↦ inr ((b.frozen h).1 ∙ e, (b.frozen h).0)
  ];
}

-- A step that runs nothing and unfinishes nothing.
pub quiet :
    (p : ℕ) {s t : Call}
    → t.channel.controller ≡ s.channel.controller
    → t.runs ≡ s.runs
    → (IsFinished p s → IsFinished p t)
    → Progress p s t
quiet p own runs kept = record { own = own; frozen = λ h. (kept h, runs); moved = inl runs }

-- A change to a controller that does not unfinish it.
pub change-Progress :
    (p q : ℕ) (f : RpcController → RpcController) (s : Call)
    → ((c : RpcController) → c.is_finished ≡ true → (f c).is_finished ≡ true)
    → Progress p s (change q f s)
change-Progress p q f s h =
    quiet p refl refl (λ k. elim (Bool-cases (p == q)) [ inl e ↦ rw e (h _ k) | inr e ↦ rw e k ])

-- What a call returns is what it is seen to return.
pub returned :
    (p : ℕ) {s t u : Call} {m : Outcome Call}
    → m ≡ ok u
    → m ≡ ok t
    → Progress p s u
    → Progress p s t
returned p {s} {t} {u} e h g =
    let same : u ≡ t = ground (arith, e, h) in subst (λ v. Progress p s v) same g

pub refl-Progress : (p : ℕ) (s : Call) → Progress p s s
refl-Progress p s = quiet p refl refl (λ h. h)

pub call_back-Progress :
    (p : ℕ) (s : Call) {t : Call}
    → s.channel.controller ≡ some p
    → call_back s ≡ ok t
    → Progress p s t
unfolding call_back set_finished
call_back-Progress p s own h = elim (Bool-cases (s.controllers p).is_finished) [
  | inl e ↦ returned p {u = s} (simp (own, e)) h (refl-Progress p s)
  | inr e ↦ elim (Bool-cases s.channel.has_closure) [
    | inl c ↦
        let ran = change p (set_finished true) (record s { runs = s.runs + 1 }) in
        let now : IsFinished p ran = rw ==_self refl in
        returned p {u = ran} (simp (own, e, c)) h (record {
          own = refl;
          frozen = λ f. absurd (ground (arith, e, f));
          moved = inr (refl, now);
        })
    | inr c ↦ returned p {u = s} (simp (own, e, c)) h (refl-Progress p s)
  ]
]

pub fail-Progress :
    (p q : ℕ) (code : ℤ) (info : Text) (s : Call) {t : Call}
    → s.channel.controller ≡ some p
    → fail q code info s ≡ ok t
    → Progress p s t
unfolding set_error
fail-Progress p q code info s own h =
    Progress-trans p (change-Progress p q (set_error code info) s (λ c f. f))
      (call_back-Progress p (change q (set_error code info) s) own h)

on_client-Progress :
    (p : ℕ) (f : TcpClient → Outcome TcpClient) (s : Call) {t : Call}
    → on_client f s ≡ ok t
    → Progress p s t
on_client-Progress p f s {t} h =
    let (c, e, k) = >>=-eq-ok (or_fault s.channel.client) _ {end = t} h in
    let (c', e', k') = >>=-eq-ok (f c) _ {end = t} k in
    returned p refl k' (quiet p refl refl (λ z. z))

-- The controller stays the channel's along progress.
pub onward :
    (p : ℕ) {s t : Call}
    → s.channel.controller ≡ some p
    → Progress p s t
    → t.channel.controller ≡ some p
onward p own g = g.own ∙ own

pub connect_done-Progress :
    (p : ℕ) (s : Call) {t : Call}
    → s.channel.controller ≡ some p
    → connect_done s ≡ ok t
    → Progress p s t
unfolding connect_done
connect_done-Progress p s {t} own h =
    let (q, e, k) = >>=-eq-ok (or_fault s.channel.controller) _ {end = t} h in
    let (c, e', k') = >>=-eq-ok (or_fault s.channel.client) _ {end = t} k in
    elim (Bool-cases (is_zero c.connect_error_code)) [
      | inl z ↦ on_client-Progress p _ s (rw z at k')
      | inr z ↦ fail-Progress p q c.connect_error_code c.connect_error_info s own (rw z at k')
    ]

module _ (net : Inet) (strerror : ℕ → Text) (parse_response : List ℕ → Bool) where
  response_done-Progress :
      (p : ℕ) (m : TinyPbProtocol) (s : Call) {t : Call}
      → s.channel.controller ≡ some p
      → response_done net strerror parse_response m s ≡ ok t
      → Progress p s t
  unfolding response_done
  response_done-Progress p m s {t} own h =
      let (q, e, k) = >>=-eq-ok (or_fault s.channel.controller) _ {end = t} h in
      elim (Bool-cases (parse_response m.pb_data)) [
        | inl y ↦ elim (Bool-cases (is_zero m.err_code)) [
          | inl z ↦ call_back-Progress p s own (rw (y, z) at k)
          | inr z ↦ fail-Progress p q m.err_code m.err_info s own (rw (y, z) at k)
        ]
        | inr y ↦ fail-Progress p q _ _ s own (rw y at k)
      ]

  run_callbacks-Progress :
      (p : ℕ) (fs : List (ℕ × TinyPbProtocol)) (s : Call) {t : Call}
      → s.channel.controller ≡ some p
      → run_callbacks net strerror parse_response fs s ≡ ok t
      → Progress p s t
  unfolding run_callbacks run_callback
  run_callbacks-Progress p [] s own h = returned p refl h (refl-Progress p s)
  run_callbacks-Progress p ((f, m) ∷ fs) s {t} own h =
      let (u, e, k) =
        >>=-eq-ok (run_callback net strerror parse_response f m s)
          (run_callbacks net strerror parse_response fs) {end = t} h in
      let one : Progress p s u = elim (Bool-cases (f == 0)) [
        | inl z ↦ on_client-Progress p _ s (rw z at e)
        | inr z ↦ response_done-Progress p m s own (rw z at e)
      ] in
      Progress-trans p one (run_callbacks-Progress p fs u (onward p own one) k)

  time_out-none : (s : Call) → s.timer ≡ none → ok s ≡ time_out net strerror parse_response s
  unfolding time_out
  time_out-none s e = ground (arith, e)

  pub time_out-some :
      (s : Call) (q : ℕ)
      → s.timer ≡ some q
      → time_out net strerror parse_response s ≡ (
          if (s.controllers q).is_finished
          then ok (record s { timer = none })
          else fail q error_rpc_call_timeout
              (codes "rpc call timeout " ++ decimal_ℤ (s.controllers q).timeout)
              (change q start_cancel (record s { timer = none })))
  unfolding time_out
  time_out-some s q e = rw (e, time_out) refl

  time_out-Progress :
      (p : ℕ) (s : Call) {t : Call}
      → s.channel.controller ≡ some p
      → time_out net strerror parse_response s ≡ ok t
      → Progress p s t
  unfolding start_cancel set_finished
  time_out-Progress p s {t} own h = elim (Option-cases s.timer) [
    | inl e ↦ returned p refl (time_out-none s e ∙ h) (refl-Progress p s)
    | inr (q, e) ↦ elim (Bool-cases (s.controllers q).is_finished) [
      | inl z ↦
          returned p {u = record s { timer = none }} (time_out-some s q e ∙ rw z refl) h
            (quiet p refl refl (λ k. k))
      | inr z ↦
          let stopped = change q start_cancel (record s { timer = none }) in
          let disarmed : Progress p s (record s { timer = none }) = quiet p refl refl (λ k. k) in
          let cancelled =
            change-Progress p q start_cancel (record s { timer = none }) (λ c k. refl) in
          Progress-trans p (Progress-trans p disarmed cancelled) (
            fail-Progress p q error_rpc_call_timeout
              (codes "rpc call timeout " ++ decimal_ℤ (s.controllers q).timeout) stopped own
              (sym (time_out-some s q e ∙ rw z refl) ∙ h))
    ]
  ]

  with_connection-Progress :
      (p : ℕ) (f : TcpConnection → Outcome (List (ℕ × TinyPbProtocol) × TcpConnection)) (s : Call)
      {t : Call}
      → s.channel.controller ≡ some p
      → with_connection net strerror parse_response f s ≡ ok t
      → Progress p s t
  unfolding with_connection
  with_connection-Progress p f s {t} own h =
      let (c, e, k) = >>=-eq-ok (or_fault s.channel.client) _ {end = t} h in
      let (k0, e', k') = >>=-eq-ok (or_fault c.connection) _ {end = t} k in
      let (r, e'', last) = >>=-eq-ok (f k0) _ {end = t} k' in
      Progress-trans p (quiet p refl refl (λ z. z)) (run_callbacks-Progress p r.0 _ own last)

  step-Progress :
      (p : ℕ) (e : Event) (s : Call) {t : Call}
      → s.channel.controller ≡ some p
      → step net strerror parse_response e s ≡ ok t
      → Progress p s t
  unfolding step
  step-Progress p timeout s own h = time_out-Progress p s own h
  step-Progress p (connectable errno name socket) s {t} own h =
      let (u, e, k) =
        >>=-eq-ok (on_client (connect_event net strerror errno name socket) s) connect_done
          {end = t} h in
      let first = on_client-Progress p (connect_event net strerror errno name socket) s e in
      Progress-trans p first (connect_done-Progress p u (onward p own first) k)
  step-Progress p (writable rs) s own h = with_connection-Progress p _ s own h
  step-Progress p (readable fuel rs) s own h = with_connection-Progress p _ s own h

  pub run_events-Progress :
      (p : ℕ) (es : List (Event)) (s : Call) {t : Call}
      → s.channel.controller ≡ some p
      → run_events net strerror parse_response es s ≡ ok t
      → Progress p s t
  unfolding run_events
  run_events-Progress p [] s own h = returned p refl h (refl-Progress p s)
  run_events-Progress p (e ∷ es) s {t} own h =
      let (u, now, later) =
        >>=-eq-ok (step net strerror parse_response e s) (run_events net strerror parse_response es)
          {end = t} h in
      let first = step-Progress p e s own now in
      Progress-trans p first (run_events-Progress p es u (onward p own first) later)
