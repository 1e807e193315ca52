-- ===== src/Rpc/Channel/Once.antt =====
-- How often a call of rpc_channel.cc runs the user's closure.
use mathlib.Core.Path.{subst}
use my_rocket.Base.{
  ℕ, ◌+◌, ◌≡◌, ◌⊎◌, inl, inr, refl, ◌∙◌, Bool, false, List, ◌++◌, Option, none, some, Text, ok,
  ◌>>=◌, or_fault, arith, Bool-cases,
}
use my_rocket.Tcp.NetAddr.{Inet, IpNetAddr, is_empty}
use my_rocket.Tcp.Client.{Next, call_done, await_event, make_client, connect}
use my_rocket.Common.MsgId.{gen_msg_id}
use my_rocket.Rpc.Dispatcher.{codes}
use my_rocket.Rpc.ErrorCode.{error_rpc_call_timeout}
use my_rocket.Rpc.Controller.{set_error, set_msg_id, start_cancel}
use my_rocket.Rpc.Channel.{
  go_on, call_peer, Call, Given, change, choose_id, start_call, call_method, Event, step, timeout,
  run_events, decimal_ℤ,
}
use my_rocket.Rpc.Channel.Progress.{
  Progress, IsFinished, >>=-eq-ok, returned, refl-Progress, Progress-trans, quiet, onward,
  change-Progress, fail-Progress, connect_done-Progress, run_events-Progress, time_out-some,
}
use my_rocket.Rpc.Channel.Ending.{call_back_finished, cancelled}

choose_id-Progress :
    (p q : ℕ) (random : List ℕ) (s : Call) {r : Text × Call}
    → choose_id q random s ≡ ok r
    → Progress p s r.1
unfolding choose_id set_msg_id
choose_id-Progress p q random s {r} h = elim (Bool-cases (is_empty (s.controllers q).msg_id)) [
  | inl e ↦ elim (Bool-cases (is_empty s.run_time.msgid)) [
    | inl f ↦
        let (g, made, k) = >>=-eq-ok (gen_msg_id s.msg_ids random) _ {end = r} (rw (e, f) at h) in
        let t = change q (set_msg_id g.0) (record s { msg_ids = g.1 }) in
        let same : t ≡ r.1 = ground (arith, k) in
        subst (λ v. Progress p s v) same
          (Progress-trans p (quiet p {t = record s { msg_ids = g.1 }} refl refl (λ z. z))
            (change-Progress p q (set_msg_id g.0) (record s { msg_ids = g.1 }) (λ c z. z)))
    | inr f ↦
        let k = rw (e, f) at h in
        let same : change q (set_msg_id s.run_time.msgid) s ≡ r.1 = ground (arith, k) in
        subst (λ v. Progress p s v) same
          (change-Progress p q (set_msg_id s.run_time.msgid) s (λ c z. z))
  ]
  | inr e ↦
      let k = rw e at h in
      let same : s ≡ r.1 = ground (arith, k) in subst (λ v. Progress p s v) same (refl-Progress p s)
]

go_on-Progress :
    (p : ℕ) (n : Next) (s : Call) {t : Call}
    → s.channel.controller ≡ some p
    → go_on n s ≡ ok t
    → Progress p s t
go_on-Progress p call_done s own h = connect_done-Progress p s own h
go_on-Progress p await_event s own h = returned p refl h (refl-Progress p s)

module _ (net : Inet) (strerror : ℕ → Text) (parse_response : List ℕ → Bool) where
  start_call-Progress :
      (p q : ℕ) (g : Given) (serialized : Option (List ℕ)) (s : Call) {t : Call}
      → s.channel.controller ≡ some p
      → start_call net strerror parse_response q g serialized s ≡ ok t
      → Progress p s t
  unfolding start_call
  start_call-Progress p q g none s own h = fail-Progress p q _ _ s own h
  start_call-Progress p q g (some bytes) s {t} own h =
      let (c, e, k) = >>=-eq-ok (or_fault s.channel.client) _ {end = t} h in
      let (r, e', k') = >>=-eq-ok (connect net strerror g.connected g.name c) _ {end = t} k in
      Progress-trans p (quiet p refl refl (λ z. z)) (go_on-Progress p r.0 _ own k')

  call_peer-Progress :
      (p q : ℕ) (g : Given) (peer : Option IpNetAddr) (s : Call) {t : Call}
      → s.channel.controller ≡ some p
      → call_peer net strerror parse_response q g peer s ≡ ok t
      → Progress p s t
  unfolding call_peer
  call_peer-Progress p q g none s own h = fail-Progress p q _ _ s own h
  call_peer-Progress p q g (some a) s {t} own h =
      let s0 = record s {
        channel = record (s.channel) { client = some (make_client g.socket a) };
      } in
      let (r, e, k) = >>=-eq-ok (choose_id q g.random s0) _ {end = t} h in
      let chosen : Progress p s r.1 =
        Progress-trans p (quiet p {t = s0} refl refl (λ z. z))
          (choose_id-Progress p q g.random s0 e) in
      let own' = onward p own chosen in
      Progress-trans p chosen (
        Progress-trans p (quiet p refl refl (λ z. z)) (elim (Bool-cases r.1.channel.is_init) [
          | inl y ↦ start_call-Progress p q g g.serialized _ own' (rw y at k)
          | inr y ↦ fail-Progress p q _ _ _ own' (rw y at k)
        ]))

  call_method-Progress :
      (p : ℕ) (q : Option ℕ) (g : Given) (s : Call) {t : Call}
      → s.channel.controller ≡ some p
      → call_method net strerror parse_response q g s ≡ ok t
      → Progress p s t
  unfolding call_method
  call_method-Progress p q g s {t} own h =
      let (q', e, k) = >>=-eq-ok (or_fault q) _ {end = t} h in
      elim (Bool-cases g.has_messages) [
        | inl y ↦ call_peer-Progress p q' g s.channel.peer_addr s own (rw y at k)
        | inr y ↦ fail-Progress p q' _ _ s own (rw y at k)
      ]

  -- On a channel with a controller, a call and whatever events follow it run the closure at most once;
  -- if it runs, the controller is finished, and if the controller was finished before, it does not run.
  pub call_method-once :
      (p : ℕ) (q : Option ℕ) (g : Given) (es : List Event) (s t : Call)
      → s.channel.controller ≡ some p
      → (call_method net strerror parse_response q g s
          >>= run_events net strerror parse_response es)
        ≡ ok t
      → ((t.runs ≡ s.runs) ⊎ ((t.runs ≡ s.runs + 1) × IsFinished p t))
        × (IsFinished p s → t.runs ≡ s.runs)
  call_method-once p q g es s t own h =
      let (u, called, later) =
        >>=-eq-ok (call_method net strerror parse_response q g s)
          (run_events net strerror parse_response es) {end = t} h in
      let first = call_method-Progress p q g s own called in
      let whole =
        Progress-trans p first
          (run_events-Progress net strerror parse_response p es u (onward p own first) later) in
      (whole.moved, λ f. (whole.frozen f).1)

  -- A call that times out never runs its closure: the timeout marks the controller as finished, then
  -- asks for the callback, which a finished controller stops. The controller has the error code of a
  -- timeout, and whatever events follow, the closure is not run.
  pub step-timeout :
      (p : ℕ) (s : Call)
      → s.channel.controller ≡ some p
      → s.timer ≡ some p
      → (s.controllers p).is_finished ≡ false
      → (t : Call) × (step net strerror parse_response timeout s ≡ ok t)
        × IsFinished p t
        × ((t.controllers p).error_code ≡ error_rpc_call_timeout)
        × (t.runs ≡ s.runs)
        × ((es : List Event) (u : Call)
            → run_events net strerror parse_response es t ≡ ok u
            → u.runs ≡ s.runs)
  unfolding step
  step-timeout p s own armed waiting =
      let info = codes "rpc call timeout " ++ decimal_ℤ (s.controllers p).timeout in
      let t =
        change p (set_error error_rpc_call_timeout info)
          (change p start_cancel (record s { timer = none })) in
      let (stopped, code) = cancelled p error_rpc_call_timeout info (record s { timer = none }) in
      (
        t,
        time_out-some net strerror parse_response s p armed
            ∙ (rw waiting refl ∙ call_back_finished p t own stopped),
        stopped,
        code,
        refl,
        λ es u h. ((run_events-Progress net strerror parse_response p es t own h).frozen stopped).1,
      )
