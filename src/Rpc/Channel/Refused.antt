-- ===== src/Rpc/Channel/Refused.antt =====
-- The calls of rpc_channel.cc that end before anything is sent.
use mathlib.Core.Path.{subst}
use mathlib.Core.Option.{some-injective}
use my_rocket.Base.{
  ℕ, ◌+◌, ◌≡◌, ◌⊎◌, inl, inr, refl, ap, ◌∙◌, Bool, true, false, List, ◌++◌, if◌then◌else◌, ◌==◌, ℤ,
  Option, none, some, Text, Outcome, ok, fault, arith, Bool-cases,
}
use my_rocket.Tcp.NetAddr.{Inet, IpNetAddr, is_empty}
use my_rocket.Tcp.Client.{TcpClient, make_client, connect, e_in_progress, connect_failed}
use my_rocket.Coder.TinyPb.{empty_protocol}
use my_rocket.Rpc.Dispatcher.{codes}
use my_rocket.Rpc.ErrorCode.{
  error_rpc_channel_init, error_rpc_peer_addr, error_failed_serialize, error_failed_connect,
}
use my_rocket.Rpc.Channel.{
  Call, RpcChannel, Given, change, fail, connect_done, choose_id, start_call, call_peer,
  call_method, is_zero,
}
use my_rocket.Rpc.Channel.Progress.{IsFinished}
use my_rocket.Rpc.Channel.Ending.{ran, fail_waiting, fail_null, there}
use my_rocket.Rpc.Controller.{set_error, set_msg_id}
use my_rocket.Common.MsgId.{gen_msg_id_total}

-- Why a call on a channel with `Init` is refused, if it is.
unfoldable pub send_refusal : Option (List ℕ) → Option ℕ → Option ℤ
send_refusal none connected = some error_failed_serialize
send_refusal (some bytes) none = none
send_refusal (some bytes) (some errno) =
    if errno == e_in_progress then none else some error_failed_connect

unfoldable pub peer_refusal : Given → Option IpNetAddr → Option ℤ
unfolding send_refusal
peer_refusal g none = some error_rpc_peer_addr
peer_refusal g (some a) = send_refusal g.serialized g.connected

unfoldable pub refusal : Given → Option IpNetAddr → Option ℤ
unfolding peer_refusal
refusal g peer = if g.has_messages then peer_refusal g peer else some error_rpc_channel_init

-- A run that refuses the call `s`: the closure has run, with an error.
abbrev pub Refused : ℕ → ℤ → Call → Outcome Call → Type 0
Refused p code s m =
    (t : Call) × (m ≡ ok t)
    × (t.runs ≡ s.runs + 1)
    × IsFinished p t
    × ((t.controllers p).error_code ≡ code)

pub by_fail :
    (p : ℕ) (code : ℤ) (info : Text) (s : Call) {m : Outcome Call}
    → s.channel.controller ≡ some p
    → s.channel.has_closure ≡ true
    → (s.controllers p).is_finished ≡ false
    → m ≡ fail p code info s
    → Refused p code s m
by_fail p code info s own closure waiting e =
    let (runs, done, same) = fail_waiting p code info s own closure waiting in
    (ran p (change p (set_error code info) s), e ∙ runs, refl, done, same)

connect_done_failed :
    (p : ℕ) (c : TcpClient) (s : Call)
    → s.channel.controller ≡ some p
    → s.channel.client ≡ some c
    → is_zero c.connect_error_code ≡ false
    → connect_done s ≡ fail p c.connect_error_code c.connect_error_info s
unfolding connect_done
connect_done_failed p c s own client bad = there _ own ∙ (there _ client ∙ rw bad refl)

choose_id_cases :
    (q : ℕ) (random : List ℕ) (s : Call)
    → ((r : Text × Call) × (choose_id q random s ≡ ok r) × (r.1.channel ≡ s.channel))
      ⊎ (choose_id q random s ≡ fault)
unfolding choose_id
choose_id_cases q random s = elim (Bool-cases (is_empty (s.controllers q).msg_id)) [
  | inl e ↦ elim (Bool-cases (is_empty s.run_time.msgid)) [
    | inl f ↦ elim (gen_msg_id_total s.msg_ids random) [
      | inl (r, made) ↦ inl (
        (r.0, change q (set_msg_id r.0) (record s { msg_ids = r.1 })),
        rw (e, f, made) refl,
        refl,
      )
      | inr made ↦ inr (rw (e, f, made) refl)
    ]
    | inr f ↦
        inl ((s.run_time.msgid, change q (set_msg_id s.run_time.msgid) s), rw (e, f) refl, refl)
  ]
  | inr e ↦ inl (((s.controllers q).msg_id, s), rw e refl, refl)
]

module _ (net : Inet) (strerror : ℕ → Text) (parse_response : List ℕ → Bool) where
  start_call-Refused :
      (p errno : ℕ) (g : Given) (bytes : List ℕ) (s : Call) (c : TcpClient)
      → s.channel.controller ≡ some p
      → s.channel.has_closure ≡ true
      → s.channel.client ≡ some c
      → (s.controllers p).is_finished ≡ false
      → g.connected ≡ some errno
      → (errno == e_in_progress) ≡ false
      → Refused p error_failed_connect s (start_call net strerror parse_response p g (some bytes) s)
  unfolding start_call connect
  start_call-Refused p errno g bytes s c own closure client waiting lost fails =
      let info = codes "connect error, sys error = " ++ strerror errno in
      let failed = connect_failed error_failed_connect info c in
      let s' = record s {
        request = record (s.request) { pb_data = bytes };
        timer = some p;
        channel = record (s.channel) { client = some failed };
      } in
      by_fail p error_failed_connect info s' own closure waiting
        (rw (client, lost) (rw fails refl) ∙ connect_done_failed p failed s' own refl refl)

  -- What follows the choice of an id.
  chosen-Refused :
      (p : ℕ) (g : Given) (serialized : Option (List ℕ)) (connected : Option ℕ) (code : ℤ)
      (s : Call) (c : TcpClient)
      → s.channel.controller ≡ some p
      → s.channel.has_closure ≡ true
      → s.channel.client ≡ some c
      → (s.controllers p).is_finished ≡ false
      → g.connected ≡ connected
      → send_refusal serialized connected ≡ some code
      → Refused p code s (start_call net strerror parse_response p g serialized s)
  unfolding send_refusal
  chosen-Refused p g none connected code s c own closure client waiting same why =
      subst (λ k. Refused p k s (start_call net strerror parse_response p g none s))
        (some-injective _ _ why)
        (by_fail p error_failed_serialize (codes "failde to serialize") s own closure waiting
          (unfold start_call in refl))
  chosen-Refused p g (some bytes) none code s c own closure client waiting same why = cc
  chosen-Refused p g (some bytes) (some errno) code s c own closure client waiting same why =
      elim (Bool-cases (errno == e_in_progress)) [
        | inl f ↦ ground (arith, why, f)
        | inr f ↦
            subst (λ k. Refused p k s (start_call net strerror parse_response p g (some bytes) s))
              (some-injective _ _ (rw f at why))
              (start_call-Refused p errno g bytes s c own closure client waiting same f)
      ]

  -- `choose_id` with a controller that has an id.
  named_call :
      (p : ℕ) (g : Given) (a : IpNetAddr) (s : Call)
      → is_empty (s.controllers p).msg_id ≡ false
      → s.channel.is_init ≡ true
      → call_peer net strerror parse_response p g (some a) s
        ≡ start_call net strerror parse_response p g g.serialized (record s {
          channel = record (s.channel) { client = some (make_client g.socket a) };
          request = record empty_protocol {
            msg_id = (s.controllers p).msg_id;
            method_name = g.method_name;
          };
        })
  unfolding call_peer choose_id
  named_call p g a s named ready = rw named (rw ready refl)

  call_peer-Refused :
      (p : ℕ) (g : Given) (peer : Option IpNetAddr) (code : ℤ) (s : Call)
      → s.channel.controller ≡ some p
      → s.channel.has_closure ≡ true
      → s.channel.is_init ≡ true
      → (s.controllers p).is_finished ≡ false
      → is_empty (s.controllers p).msg_id ≡ false
      → peer_refusal g peer ≡ some code
      → Refused p code s (call_peer net strerror parse_response p g peer s)
  unfolding peer_refusal
  call_peer-Refused p g none code s own closure ready waiting named why =
      subst (λ k. Refused p k s (call_peer net strerror parse_response p g none s))
        (some-injective _ _ why)
        (by_fail p error_rpc_peer_addr (codes "peer addr nullptr") s own closure waiting
          (unfold call_peer in refl))
  call_peer-Refused p g (some a) code s own closure ready waiting named why =
      rw (named_call p g a s named ready) (
        chosen-Refused p g g.serialized g.connected code _ (make_client g.socket a) own closure refl
          waiting refl why)

  -- A call on a channel that is ready, whose controller has an id, that is refused runs the closure
  -- once, with the controller finished and the error code of the first reason there is: no message, no
  -- address, no serialized request, or an error of `connect` other than that it is in progress.
  pub call_method-Refused :
      (p : ℕ) (g : Given) (code : ℤ) (s : Call)
      → s.channel.controller ≡ some p
      → s.channel.has_closure ≡ true
      → s.channel.is_init ≡ true
      → (s.controllers p).is_finished ≡ false
      → is_empty (s.controllers p).msg_id ≡ false
      → refusal g s.channel.peer_addr ≡ some code
      → Refused p code s (call_method net strerror parse_response (some p) g s)
  unfolding call_method refusal
  call_method-Refused p g code s own closure ready waiting named why =
      elim (Bool-cases g.has_messages) [
        | inl y ↦ rw y (
            call_peer-Refused p g s.channel.peer_addr code s own closure ready waiting named
              (rw y at why))
        | inr y ↦ rw y (
            subst
              (λ k.
                Refused p k s (
                  fail p error_rpc_channel_init (codes "controller or request or response NULL") s))
              (some-injective _ _ (rw y at why))
              (by_fail p error_rpc_channel_init (codes "controller or request or response NULL") s
                own closure waiting refl))
      ]

  call_peer_uninit :
      (p : ℕ) (g : Given) (peer : Option IpNetAddr) (s : Call)
      → s.channel.controller ≡ none
      → s.channel.is_init ≡ false
      → call_peer net strerror parse_response p g peer s ≡ fault
  unfolding call_peer
  call_peer_uninit p g none s null uninit = fail_null p _ _ s null
  call_peer_uninit p g (some a) s null uninit =
      elim (choose_id_cases p g.random
        (record s { channel = record (s.channel) { client = some (make_client g.socket a) } })) [
          | inl (r, e, same) ↦
              let still : r.1.channel.is_init ≡ false =
                ap (λ (c : RpcChannel). c.is_init) same ∙ uninit in
              let none_there : r.1.channel.controller ≡ none =
                ap (λ (c : RpcChannel). c.controller) same ∙ null in
              rw e (rw still (fail_null p _ _ _ none_there))
          | inr e ↦ rw e refl
        ]

  -- On a channel without `Init`, which has no controller, every call goes wrong by a null pointer,
  -- whatever it is given: each error that `CallMethod` detects is reported through the controller
  -- that is not there.
  pub call_method_uninit :
      (q : Option ℕ) (g : Given) (s : Call)
      → s.channel.controller ≡ none
      → s.channel.is_init ≡ false
      → call_method net strerror parse_response q g s ≡ fault
  unfolding call_method
  call_method_uninit none g s null uninit = refl
  call_method_uninit (some p) g s null uninit = elim (Bool-cases g.has_messages) [
    | inl y ↦ rw y (call_peer_uninit p g s.channel.peer_addr s null uninit)
    | inr y ↦ rw y (fail_null p _ _ s null)
  ]
