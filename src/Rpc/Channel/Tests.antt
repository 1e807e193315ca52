-- ===== src/Rpc/Channel/Tests.antt =====
-- Calls of rocket/net/rpc/rpc_channel.cc.
use my_rocket.Base.{
  ℕ, ◌≡◌, ◌⊎◌, refl, List, [], ◌∷◌, none, some, Text, Bool, true, pos, ok, fault, stuck, Outcome,
  same, ◌>>=◌, if◌then◌else◌, arith,
}
use my_rocket.Tcp.NetAddr.{Inet, IpNetAddr}
use my_rocket.Tcp.Client.{make_client, connect}
use my_rocket.Tcp.Connection.{make_connection}
use my_rocket.Coder.TinyPb.{TinyPbProtocol, empty_protocol}
use my_rocket.Common.MsgId.{gen_msg_id}
use my_rocket.Common.Config.{
  Xml, Config, load, loaded, first_named, stub_nodes, default_config, Loading, exits, crashed,
  load_root, read_settings, read_str, read_stubs, read_stub, text_of,
}
use my_rocket.Rpc.Dispatcher.{codes}
use my_rocket.Rpc.Controller.{fresh, set_error, set_finished, set_msg_id}
use my_rocket.Rpc.ErrorCode.{error_failed_connect, error_rpc_call_timeout}
use my_rocket.Rpc.Channel.{
  Call, Given, call_method, step, Event, timeout, run_events, find_addr, addr_of, make_channel,
  call_peer, choose_id, init, start_call, connect_done, call_back, time_out,
}
use my_rocket.Rpc.Channel.Progress.{IsFinished}
use my_rocket.Rpc.Channel.Once.{call_method-once, step-timeout}
use my_rocket.Rpc.Channel.Refused.{
  call_method-Refused, refusal, peer_refusal, send_refusal, Refused,
}
use my_rocket.Rpc.Channel.Address.{find_addr-load}
use my_rocket.Base.{replicate, false}
use my_rocket.Tcp.Buffer.{TcpBuffer}
use my_rocket.Tcp.Connection.{TcpConnection, connected, by_client}
use my_rocket.Tcp.Client.{TcpClient}
use my_rocket.Rpc.Channel.{sent_callback}
use my_rocket.Coder.TinyPb.Parse.{IsSendable}

abbrev net : Inet
net = record { inet_addr = λ s. 7; inet_ntoa = λ n. b'h' ∷ [] }

abbrev strerror : ℕ → Text
strerror n = []

abbrev parse : List ℕ → Bool
parse xs = true

abbrev peer : IpNetAddr
peer = record { ip = b'h' ∷ []; port = 80; sock = none }

-- A channel with a controller, number 3, and a closure.
abbrev ready : Call
ready = record {
  channel = record {
    peer_addr = some peer;
    controller = some 3;
    has_closure = true;
    is_init = true;
    client = none;
  };
  controllers = λ q. fresh;
  run_time = record { msgid = b'7' ∷ []; method_name = [] };
  msg_ids = record { msg_id_no = []; max_msg_id_no = [] };
  request = empty_protocol;
  timer = some 3;
  runs = 0;
}

-- The network is unreachable.
abbrev unreachable : Given
unreachable = record {
  has_messages = true;
  method_name = b'E' ∷ b'.' ∷ b'e' ∷ [];
  serialized = some (1 ∷ []);
  random = [];
  socket = pos 5;
  connected = some 101;
  name = none;
}

abbrev settled : Outcome Call → Call
settled (ok s) = s
settled fault = ready
settled stuck = ready

abbrev outcome : Outcome Call
outcome =
    call_method net strerror parse (some 3) unreachable ready
    >>= run_events net strerror parse (timeout ∷ [])

refused : outcome ≡ ok (settled outcome)
unfolding call_method call_peer choose_id init start_call make_client make_connection connect
    connect_done call_back set_error set_finished set_msg_id gen_msg_id run_events step time_out
refused = refl

-- The call that cannot connect, and its timeout later.
call_method-once_example :
    (((settled outcome).runs ≡ 0) ⊎ (((settled outcome).runs ≡ 1) × IsFinished 3 (settled outcome)))
    × (IsFinished 3 ready → (settled outcome).runs ≡ 0)
call_method-once_example =
    call_method-once net strerror parse 3 (some 3) unreachable (timeout ∷ []) ready
      (settled outcome) refl refused

step-timeout_example :
    (t : Call) × (step net strerror parse timeout ready ≡ ok t)
    × IsFinished 3 t
    × ((t.controllers 3).error_code ≡ error_rpc_call_timeout)
    × (t.runs ≡ 0)
    × ((es : List Event) (u : Call) → run_events net strerror parse es t ≡ ok u → u.runs ≡ 0)
step-timeout_example = step-timeout net strerror parse 3 ready refl refl refl

-- The answer reports error 5.
abbrev answer : TinyPbProtocol
answer = record empty_protocol { msg_id = b'7' ∷ []; err_code = pos 5 }

-- A buffer of 64 bytes, a connection with a request to send, and its client.
abbrev room : TcpBuffer
room = record { read_index = 0; write_index = 0; size = 64; buffer = replicate 64 0 }

abbrev request : TinyPbProtocol
request = record empty_protocol { msg_id = b'7' ∷ [] }

abbrev asking_connection : TcpConnection
asking_connection = record {
  state = connected;
  connection_type = by_client;
  in_buffer = room;
  out_buffer = room;
  write_dones = (request, sent_callback) ∷ [];
  read_dones = [];
  epoll_in = true;
  epoll_out = false;
  is_listed = true;
}

abbrev client : TcpClient
client = record {
  fd = pos 5;
  peer_addr = peer;
  local_addr = none;
  connection = some asking_connection;
  connect_error_code = pos 0;
  connect_error_info = [];
}

abbrev asking : Call
asking = record ready { channel = record (ready.channel) { client = some client } }

answer-IsSendable : IsSendable answer
answer-IsSendable = record {
  id_fits = omega arith;
  id_text = ((λ e. omega (arith, e)), tt);
  name_fits = omega arith;
  name_text = tt;
  info_fits = omega arith;
  info_text = tt;
  code = omega arith;
  short = omega arith;
}

-- The same channel, with an id for its controller.
abbrev named : Call
named = record ready { controllers = λ q. record fresh { msg_id = b'7' ∷ [] } }

call_method-Refused_example :
    Refused 3 error_failed_connect named (call_method net strerror parse (some 3) unreachable named)
call_method-Refused_example =
    call_method-Refused net strerror parse 3 unreachable error_failed_connect named refl refl refl
      refl refl (unfold refusal peer_refusal send_refusal in refl)

abbrev uninit : Call
uninit = record ready { channel = make_channel (some peer) }

-- A document with two stubs of one name. Its nodes are texts.
abbrev children : Text → Text → List Text
children n name =
    if same n (codes "doc")
    then codes "root" ∷ []
    else if same n (codes "root")
    then if same name (codes "stubs") then codes "stubs" ∷ [] else codes "part" ∷ []
    else if same n (codes "stubs")
    then (b'1' ∷ []) ∷ (b'1' ∷ []) ∷ []
    else n ∷ []

abbrev doc : Xml Text
doc = record { children = children; get_text = λ n. some n }

abbrev loaded_doc : Loading Config
loaded_doc = load net doc (codes "doc")

abbrev config_or : Loading Config → Config
config_or (loaded c) = c
config_or (exits name) = default_config
config_or crashed = default_config

doc_loads : loaded_doc ≡ loaded (config_or loaded_doc)
unfolding load load_root read_settings read_str read_stubs read_stub text_of same
doc_loads = refl

find_addr-load_example :
    find_addr net (config_or loaded_doc).rpc_stubs (b'1' ∷ [])
    ≡ addr_of (first_named net doc (b'1' ∷ []) (stub_nodes net doc (codes "root")))
unfolding same
find_addr-load_example =
    find_addr-load net doc (codes "doc") (codes "root") (config_or loaded_doc) (b'1' ∷ [])
      (omega arith, tt) doc_loads refl
