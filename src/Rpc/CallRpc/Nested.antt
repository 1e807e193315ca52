-- ===== src/Rpc/CallRpc/Nested.antt =====
-- A call that a service makes while it answers a request: the thread's `RunTime`, which `dispatch`
-- of rpc_dispatcher.cc fills in, and the choice of the message id in rpc_channel.cc.
use my_rocket.Base.{
  ◌⊎◌, ℕ, ◌≡◌, refl, sym, ap, ◌∙◌, inl, inr, Bool, true, false, List, pos, ℤ, Option, none, some,
  Text, Option-cases,
}
use my_rocket.Base.Assoc.{lookup}
use my_rocket.Tcp.NetAddr.{Inet, IpNetAddr, SockAddr, is_empty}
use my_rocket.Tcp.Client.{e_in_progress}
use my_rocket.Coder.TinyPb.{TinyPbProtocol}
use my_rocket.Common.Config.{RpcStub}
use my_rocket.Rpc.Dispatcher.{
  Service, RunTime, Ends, ServiceMap, dispatch, finish, parse_service_full_name,
}
use my_rocket.Rpc.Channel.{Call, Given, find_addr}
use my_rocket.Rpc.EndToEnd.Begin.{request_of}
use my_rocket.Rpc.CallRpc.{Begins, call_rpc, call_rpc_lem}

module _ {Method Req Rsp : Type 0} (services : ServiceMap Method Req Rsp) (ends : Ends) where
  run_time-finish :
      (service : Service Method Req Rsp) (answer : Option Rsp) (rsp : TinyPbProtocol) (rt : RunTime)
      → (finish service answer rsp rt).run_time ≡ rt
  unfolding finish
  run_time-finish service none rsp rt = refl
  run_time-finish service (some msg) rsp rt = elim (Option-cases (service.serialize msg)) [
    | inl e ↦ rw (e, finish) refl
    | inr (bytes, e) ↦ rw (e, finish) refl
  ]

  -- A request that comes to its method, which need not answer it.
  pub record IsCalled (req : TinyPbProtocol) : Type 0 where
    pub service_name : Text
    pub name : Text
    pub service : Service Method Req Rsp
    pub method : Method
    pub msg : Req
    pub parts : parse_service_full_name req.method_name ≡ some (service_name, name)
    pub stored : lookup service_name services ≡ some service
    pub found : service.find_method name ≡ some method
    pub parsed : service.parse_request method req.pb_data ≡ some msg

  run_time-dispatch :
      (req response : TinyPbProtocol) (rt : RunTime) (k : IsCalled req)
      → (dispatch services ends req response rt).run_time
        ≡ record { msgid = req.msg_id; method_name = k.name }
  unfolding dispatch
  run_time-dispatch req response rt k =
      rw (dispatch, k.parts) (rw (k.stored, k.found, k.parsed) (run_time-finish k.service _ _ _))

  module _ (net : Inet) (strerror : ℕ → Text) (parse_response : List ℕ → Bool)
      (stubs : List (Text × RpcStub)) where
    -- If a thread has dispatched a request with an id that comes to its method, then a call by
    -- `CALLRPRC` on this thread, to an address that is found, with its messages, a closure and a
    -- controller that waits and has no id, and with a `connect` that succeeds at once or is in
    -- progress, comes to a connection that has its request to send with the id of the request that
    -- was dispatched.
    pub dispatch-call_rpc :
        (req response : TinyPbProtocol) (rt : RunTime) (addr : Text) (p fd : ℕ) (a : IpNetAddr)
        (bytes : List ℕ) (g : Given) (name : Option SockAddr) (socket : ℤ) (s : Call)
        → IsCalled req
        → is_empty req.msg_id ≡ false
        → s.run_time ≡ (dispatch services ends req response rt).run_time
        → is_empty (s.controllers p).msg_id ≡ true
        → (s.controllers p).is_finished ≡ false
        → find_addr net stubs addr ≡ some a
        → g.has_messages ≡ true
        → g.serialized ≡ some bytes
        → g.socket ≡ pos fd
        → (g.connected ≡ none) ⊎ (g.connected ≡ some e_in_progress)
        → Begins net strerror parse_response stubs p
            (request_of g bytes req.msg_id)
            g
            name
            socket
            s
            (call_rpc net strerror parse_response stubs addr p true g s)
    dispatch-call_rpc req response rt addr p fd a bytes g name socket s k has same unnamed waits
          found messages serialized made connects =
        let now : s.run_time.msgid ≡ req.msg_id =
          ap (λ (r : RunTime). r.msgid) (same ∙ run_time-dispatch req response rt k) in
        elim (call_rpc_lem net strerror parse_response stubs addr p fd bytes req.msg_id g name
          socket s waits messages serialized made
          (inr (inl (unnamed, ap is_empty now ∙ has, sym now))) connects) [
            | inl (miss, _) ↦ absurd (cc (miss, found))
            | inr (_, _, begins) ↦ begins
          ]
