-- ===== src/Rpc/CallRpc/Tests.antt =====
-- Runs of the macros of rocket/net/rpc/rpc_channel.h.
use my_rocket.Base.{
  inr, ℕ, ◌≡◌, ◌⊎◌, refl, inl, Bool, true, List, [], ◌∷◌, pos, none, some, Text, same,
  find_first_of,
}
use my_rocket.Base.Assoc.{lookup}
use my_rocket.Tcp.NetAddr.{Inet, IpNetAddr, check_valid}
use my_rocket.Tcp.Client.{e_in_progress}
use my_rocket.Coder.TinyPb.{TinyPbProtocol, empty_protocol}
use my_rocket.Common.Config.{RpcStub}
use my_rocket.Rpc.ErrorCode.{error_rpc_peer_addr}
use my_rocket.Rpc.Controller.{fresh}
use my_rocket.Rpc.Dispatcher.{Service, ServiceMap, RunTime, Ends, dispatch, parse_service_full_name}
use my_rocket.Rpc.Channel.{Call, Given, make_channel, find_addr}
use my_rocket.Rpc.Channel.Refused.{Refused}
use my_rocket.Rpc.EndToEnd.Begin.{request_of}
use my_rocket.Rpc.CallRpc.{Begins, call_rpc, call_rpc_lem}
use my_rocket.Rpc.CallRpc.Nested.{IsCalled, dispatch-call_rpc}

abbrev net : Inet
net = record { inet_addr = λ s. 7; inet_ntoa = λ n. b'h' ∷ [] }

abbrev strerror : ℕ → Text
strerror n = []

abbrev parse : List ℕ → Bool
parse xs = true

abbrev order_stub : RpcStub
order_stub = record {
  name = b'o' ∷ [];
  addr = record { ip = b'h' ∷ []; port = 80; sock = none };
  timeout = pos 1000;
}

abbrev stubs : List (Text × RpcStub)
stubs = (b'o' ∷ [], order_stub) ∷ []

-- A service that gives the data back.
abbrev echo : Service Text Text Text
echo = record {
  full_name = b'E' ∷ [];
  find_method = λ m. some m;
  parse_request = λ m bytes. some bytes;
  call_method = λ m c req. some req;
  serialize = λ rsp. some rsp;
}

abbrev services : ServiceMap Text Text Text
services = (b'E' ∷ [], echo) ∷ []

abbrev no_ends : Ends
no_ends = record { local = none; peer = none }

abbrev no_run_time : RunTime
no_run_time = record { msgid = []; method_name = [] }

abbrev request : TinyPbProtocol
request = record empty_protocol {
  msg_id = b'7' ∷ [];
  method_name = b'E' ∷ b'.' ∷ b'e' ∷ [];
  pb_data = 1 ∷ [];
}

abbrev call : Call
call = record {
  channel = make_channel none;
  controllers = λ q. fresh;
  run_time = (dispatch services no_ends request empty_protocol no_run_time).run_time;
  msg_ids = record { msg_id_no = []; max_msg_id_no = [] };
  request = empty_protocol;
  timer = none;
  runs = 0;
}

abbrev given : Given
given = record {
  has_messages = true;
  method_name = b'O' ∷ b'.' ∷ b'm' ∷ [];
  serialized = some (2 ∷ []);
  random = [];
  socket = pos 5;
  connected = some e_in_progress;
  name = none;
}

-- The same on a thread that serves no request, with a controller that has an id.
abbrev own_call : Call
own_call = record call {
  controllers = λ q. record fresh { msg_id = b'9' ∷ [] };
  run_time = no_run_time;
}

request-IsCalled : IsCalled services no_ends request
unfolding parse_service_full_name find_first_of lookup same
request-IsCalled = record {
  service_name = b'E' ∷ [];
  name = b'e' ∷ [];
  service = echo;
  method = b'e' ∷ [];
  msg = 1 ∷ [];
  parts = refl;
  stored = refl;
  found = refl;
  parsed = refl;
}

found_o : find_addr net stubs (b'o' ∷ []) ≡ some order_stub.addr
unfolding find_addr check_valid lookup same find_first_of
found_o = refl

call_rpc_lem_example :
    let begun = call_rpc net strerror parse stubs (b'o' ∷ []) 3 true given own_call in
    ((find_addr net stubs (b'o' ∷ []) ≡ none) × Refused 3 error_rpc_peer_addr own_call begun)
    ⊎ ((a : IpNetAddr) × (find_addr net stubs (b'o' ∷ []) ≡ some a)
        × Begins net strerror parse stubs 3
            (request_of given (2 ∷ []) (b'9' ∷ []))
            given
            none
            (pos 6)
            own_call
            begun)
call_rpc_lem_example =
    call_rpc_lem net strerror parse stubs (b'o' ∷ []) 3 5 (2 ∷ []) (b'9' ∷ []) given none (pos 6)
      own_call refl refl refl refl (inl (refl, refl)) (inr refl)

dispatch-call_rpc_example :
    Begins net strerror parse stubs 3
      (request_of given (2 ∷ []) (b'7' ∷ []))
      given
      none
      (pos 6)
      call
      (call_rpc net strerror parse stubs (b'o' ∷ []) 3 true given call)
dispatch-call_rpc_example =
    dispatch-call_rpc services no_ends net strerror parse stubs request empty_protocol no_run_time
      (b'o' ∷ []) 3 5 order_stub.addr (2 ∷ []) given none (pos 6) call request-IsCalled refl refl
      refl refl found_o refl refl refl (inr refl)
