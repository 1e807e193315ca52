-- ===== src/Rpc/CallRpc.antt =====
-- The macros of rocket/net/rpc/rpc_channel.h that make a call: a controller, a channel to an
-- address that the configuration or a text names, and `CallMethod` of the channel behind the
-- generated stub.
pub mod Nested
mod Tests
use my_rocket.Base.{
  ℕ, ◌≡◌, refl, ap, ◌∙◌, ◌⊎◌, inl, inr, Bool, true, false, List, [], ◌∷◌, pos, ℤ, Option, none,
  some, Text, Outcome, ok, ◌>>=◌, Option-cases,
}
use my_rocket.Tcp.NetAddr.{Inet, IpNetAddr, SockAddr, is_empty}
use my_rocket.Tcp.Connection.{TcpConnection}
use my_rocket.Tcp.Buffer as TcpBuffer
use my_rocket.Tcp.Client.{TcpClient, e_in_progress}
use my_rocket.Coder.TinyPb.{TinyPbProtocol}
use my_rocket.Common.Config.{RpcStub}
use my_rocket.Rpc.ErrorCode.{error_rpc_peer_addr}
use my_rocket.Rpc.Controller.{RpcController, fresh, set_msg_id}
use my_rocket.Rpc.Dispatcher.{RunTime, Ends, ServiceMap, dispatch, finish, codes}
use my_rocket.Rpc.Dispatcher.Routing.{IsAnswered}
use my_rocket.Rpc.Channel.{
  Call, RpcChannel, Given, make_channel, init, find_addr, call_method, call_peer, connectable,
  run_events,
}
use my_rocket.Rpc.Channel.Refused.{Refused, by_fail}
use my_rocket.Rpc.EndToEnd.{IsAsking}
use my_rocket.Rpc.EndToEnd.Begin.{
  IsFresh, IsNamed, request_of, call_method-connects, call_method_given,
}

unfoldable pub new_rpc_controller : RpcController
new_rpc_controller = fresh

unfoldable pub new_rpc_channel : Inet → List (Text × RpcStub) → Text → RpcChannel
new_rpc_channel net stubs addr = make_channel (find_addr net stubs addr)

-- `CALLRPRC`: the channel, its `Init`, and the stub's method, which is protobuf's call of
-- `CallMethod`.
unfoldable pub call_rpc :
    Inet
    → (ℕ → Text)
    → (List ℕ → Bool)
    → List (Text × RpcStub)
    → Text
    → ℕ
    → Bool
    → Given
    → Call
    → Outcome Call
call_rpc net strerror parse_response stubs addr p has_closure g s =
    call_method net strerror parse_response (some p) g
      (record s { channel = init (some p) has_closure (new_rpc_channel net stubs addr) })

-- A call that has come to a connection with its request to send, the closure not yet run, the
-- timeout armed, and the controller as it was but for its id.
pub record IsBegun (p : ℕ) (q : TinyPbProtocol) (s : Call) (m : Outcome Call) : Type 0 where
  pub call : Call
  pub client : TcpClient
  pub connection : TcpConnection
  pub run : m ≡ ok call
  pub asking : IsAsking p q call client connection
  pub runs : call.runs ≡ s.runs
  pub timer : call.timer ≡ some p
  pub controller : call.controllers p ≡ set_msg_id q.msg_id (s.controllers p)

-- What `call_method-connects` gives of a call, as a product.
abbrev Begun : ℕ → TinyPbProtocol → Call → Outcome Call → Type 0
Begun p q s m =
    (t : Call) × (c : TcpClient) × (k : TcpConnection) × (m ≡ ok t)
    × IsAsking p q t c k
    × (k.in_buffer ≡ TcpBuffer.init 128)
    × (t.runs ≡ s.runs)
    × (t.timer ≡ some p)
    × (t.controllers p ≡ set_msg_id q.msg_id (s.controllers p))

started :
    {p : ℕ} {q : TinyPbProtocol} {s : Call} {m : Outcome Call} → Begun p q s m → IsBegun p q s m
started (t, c, k, run, asking, _, runs, timer, same) = record {
  call = t;
  client = c;
  connection = k;
  run = run;
  asking = asking;
  runs = runs;
  timer = timer;
  controller = same;
}

module _ (net : Inet) (strerror : ℕ → Text) (parse_response : List ℕ → Bool)
    (stubs : List (Text × RpcStub)) where
  -- A call begins at once, or with the event of its descriptor.
  abbrev pub Begins :
      ℕ → TinyPbProtocol → Given → Option SockAddr → ℤ → Call → Outcome Call → Type 0
  Begins p q g name socket s begun =
      ((g.connected ≡ none) × IsBegun p q s begun)
      ⊎ ((g.connected ≡ some e_in_progress)
          × IsBegun p q s (
              begun >>= run_events net strerror parse_response (connectable none name socket ∷ [])))

  -- A call by `CALLRPRC` with its messages, a closure and a controller that waits, whose `connect`
  -- succeeds at once or is in progress. If the address is not found, the closure has run once, with
  -- the error of a missing address. If it is found, the request is serialized and the socket is
  -- made, then the call comes to a connection with the request to send, with the id of its
  -- controller, of the request that its thread serves, or a new one: at once if `connect` succeeds
  -- at once, and with the event of its descriptor if it is in progress.
  pub call_rpc_lem :
      (addr : Text) (p fd : ℕ) (bytes : List ℕ) (id : Text) (g : Given) (name : Option SockAddr)
      (socket : ℤ) (s : Call)
      → (s.controllers p).is_finished ≡ false
      → g.has_messages ≡ true
      → g.serialized ≡ some bytes
      → g.socket ≡ pos fd
      → IsNamed p g.random id s
      → (g.connected ≡ none) ⊎ (g.connected ≡ some e_in_progress)
      → let begun = call_rpc net strerror parse_response stubs addr p true g s in
        ((find_addr net stubs addr ≡ none) × Refused p error_rpc_peer_addr s begun)
        ⊎ ((a : IpNetAddr) × (find_addr net stubs addr ≡ some a)
            × Begins p (request_of g bytes id) g name socket s begun)
  unfolding call_rpc init new_rpc_channel make_channel
  call_rpc_lem addr p fd bytes id g name socket s waits messages serialized made named connects =
      let s' = record s { channel = init (some p) true (new_rpc_channel net stubs addr) } in
      elim (Option-cases (find_addr net stubs addr)) [
        | inl e ↦ inl (
          e,
          by_fail p error_rpc_peer_addr (codes "peer addr nullptr") s' refl refl waits (
              call_method_given net strerror parse_response p g s' messages
              ∙ (unfold call_peer in
                  ap (λ peer. call_peer net strerror parse_response p g peer s') e)),
        )
        | inr (a, e) ↦
            let f : IsFresh p a g.random id s' = record {
              own = refl;
              closure = refl;
              is_init = refl;
              addr = e;
              waits = waits;
              is_named = named;
            } in
            let (now, later) =
              call_method-connects net strerror parse_response p fd a bytes id g name socket s' f
                messages serialized made in
            inr (a, e, begins connects now later)
      ]
    where
      begins :
          {m m' : Outcome Call} {q : TinyPbProtocol}
          → (g.connected ≡ none) ⊎ (g.connected ≡ some e_in_progress)
          → (g.connected ≡ none → Begun p q s m)
          → (g.connected ≡ some e_in_progress → Begun p q s m')
          → ((g.connected ≡ none) × IsBegun p q s m)
            ⊎ ((g.connected ≡ some e_in_progress) × IsBegun p q s m')
      begins (inl c) now later = inl (c, started (now c))
      begins (inr c) now later = inr (c, started (later c))
