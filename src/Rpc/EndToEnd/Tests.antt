-- ===== src/Rpc/EndToEnd/Tests.antt =====
-- A call of rocket/net/rpc from end to end.
use my_rocket.Base.{
  ℕ, ◌≡◌, inl, refl, Bool, true, false, not, List, [], ◌∷◌, ◌++◌, none, some, Text, pos, arith,
  replicate, length-replicate, take, drop, ok, same, find_first_of, if◌then◌else◌,
}
use my_rocket.Base.Assoc.{lookup}
use my_rocket.Tcp.NetAddr.{Inet, IpNetAddr}
use my_rocket.Tcp.Buffer.{TcpBuffer}
use my_rocket.Tcp.Buffer.Contents.{contents}
use my_rocket.Tcp.Client.{TcpClient}
use my_rocket.Tcp.Connection.{TcpConnection, connected, by_server, bytes, wrote, on_write, Written}
use my_rocket.Tcp.Connection.Stream.{Part, messages_of, left_of, on_reads, serve}
use my_rocket.Coder.TinyPb.{TinyPbProtocol, empty_protocol}
use my_rocket.Coder.TinyPb.Parse.{IsSendable, packet, received}
use my_rocket.Coder.TinyPb.RoundTrip.{IsOpen, packets}
use my_rocket.Coder.TinyPb.Scan.{NoStart}
use my_rocket.Coder.TinyPb.Wire.{be32}
use my_rocket.Coder.TinyPb.Partial.{headed, nothing}
use my_rocket.Rpc.Controller.{fresh}
use my_rocket.Rpc.ErrorCode.{error_failed_serialize}
use my_rocket.Rpc.Dispatcher.{
  Service, ServiceMap, RunTime, Ends, dispatch, finish, parse_service_full_name,
}
use my_rocket.Rpc.Dispatcher.Routing.{IsAnswered}
use my_rocket.Rpc.Dispatcher.Serving.{dispatched, answers}
use my_rocket.Rpc.Channel.{Call, readable, writable, is_zero, run_events}
use my_rocket.Rpc.Channel.Progress.{IsFinished}
use my_rocket.Base.{◌>>=◌}
use my_rocket.Tcp.Buffer.{init}
use my_rocket.Rpc.Channel.{Given, call_method, connectable}
use my_rocket.Rpc.EndToEnd.Begin.{IsFresh}
use my_rocket.Rpc.EndToEnd.Whole.{call_method-answered}
use my_rocket.Rpc.EndToEnd.{taken_of}

-- A service that gives the data back, by whatever method.
abbrev echo : Text → Service Text Text Text
echo name = record {
  full_name = name;
  find_method = λ m. some m;
  parse_request = λ m bytes. some bytes;
  call_method = λ m c req. some req;
  serialize = λ rsp. some rsp;
}

abbrev no_ends : Ends
no_ends = record { local = none; peer = none }

abbrev no_run_time : RunTime
no_run_time = record { msgid = []; method_name = [] }

abbrev request : TinyPbProtocol
request = record empty_protocol {
  msg_id = b'7' ∷ [];
  method_name = b'E' ∷ b'.' ∷ b'e' ∷ [];
  pb_data = 1 ∷ [];
}

-- A connection with buffers of 64 bytes.
abbrev roomy : TcpBuffer
roomy = record { read_index = 0; write_index = 0; size = 64; buffer = replicate 64 0 }

roomy-IsOpen : IsOpen roomy
roomy-IsOpen = record {
  valid = record { ordered = omega arith; bounded = omega (arith, length-replicate {A = ℕ} 64 0) };
  room = omega (arith, length-replicate {A = ℕ} 64 0);
  small = omega (arith, length-replicate {A = ℕ} 64 0);
}

abbrev server_connection : TcpConnection
server_connection = record {
  state = connected;
  connection_type = by_server;
  in_buffer = roomy;
  out_buffer = roomy;
  write_dones = [];
  read_dones = [];
  epoll_in = true;
  epoll_out = false;
  is_listed = true;
}

request-IsSendable : IsSendable request
request-IsSendable = record {
  id_fits = omega arith;
  id_text = ((λ e. omega (arith, e)), tt);
  name_fits = omega arith;
  name_text = ((λ e. omega (arith, e)), (((λ e. omega (arith, e)), ((λ e. omega (arith, e)), tt))));
  info_fits = omega arith;
  info_text = tt;
  code = omega arith;
  short = omega arith;
}

abbrev stream : List ℕ
stream = packet request []

-- The first twelve bytes, and the others.
abbrev parts : List Part
parts =
    record { taken = take 12 stream; messages = []; left = take 12 stream }
    ∷ record { taken = drop 12 stream; messages = request ∷ []; left = [] }
    ∷ []

waits_without_start : NoStart (be32 (pos 31) ++ take 7 (drop 5 stream))
waits_without_start = ground arith

abbrev services : ServiceMap Text Text Text
services = (b'E' ∷ [], echo (b'E' ∷ [])) ∷ []

abbrev net : Inet
net = record { inet_addr = λ s. 7; inet_ntoa = λ n. b'h' ∷ [] }

abbrev strerror : ℕ → Text
strerror n = []

abbrev parse : List ℕ → Bool
parse xs = true

abbrev peer : IpNetAddr
peer = record { ip = b'h' ∷ []; port = 80; sock = none }

-- The side of the client: a channel behind `Init`, and a controller with an id.
abbrev call : Call
call = record {
  channel = record {
    peer_addr = some peer;
    controller = some 3;
    has_closure = true;
    is_init = true;
    client = none;
  };
  controllers = λ q. record fresh { msg_id = b'7' ∷ [] };
  run_time = no_run_time;
  msg_ids = record { msg_id_no = []; max_msg_id_no = [] };
  request = empty_protocol;
  timer = none;
  runs = 0;
}

abbrev given : Given
given = record {
  has_messages = true;
  method_name = b'E' ∷ b'.' ∷ b'e' ∷ [];
  serialized = some (1 ∷ []);
  random = [];
  socket = pos 5;
  connected = some 115;
  name = none;
}

call-IsFresh : IsFresh 3 peer [] (b'7' ∷ []) call
call-IsFresh = record {
  own = refl;
  closure = refl;
  is_init = refl;
  addr = refl;
  waits = refl;
  is_named = inl (refl, refl);
}

request-IsAnswered : IsAnswered services no_ends (received request)
unfolding parse_service_full_name find_first_of lookup same
request-IsAnswered = record {
  service_name = b'E' ∷ [];
  method = b'e' ∷ [];
  name = b'e' ∷ [];
  service = echo (b'E' ∷ []);
  msg = 1 ∷ [];
  answer = 1 ∷ [];
  parts = refl;
  stored = refl;
  found = refl;
  parsed = refl;
  called = refl;
}

abbrev response : TinyPbProtocol
response = (dispatched services no_ends no_run_time (received request)).response

response_sent : response ≡ record empty_protocol {
  msg_id = request.msg_id;
  method_name = request.method_name;
  pb_data = 1 ∷ [];
}
unfolding dispatch finish parse_service_full_name find_first_of lookup same
response_sent = refl

call_method-answered_example :
    (begun : Call) × (c : TcpClient) × (k : TcpConnection) × (w : Written)
    × (served : TcpConnection) × (w' : Written) × (t : Call) × (call_method net strerror parse
            (some 3)
            given
            call
          >>= run_events net strerror parse (connectable none none (pos 6) ∷ [])
        ≡ ok begun)
    × (begun.channel.client ≡ some c)
    × (c.connection ≡ some k)
    × (on_write (wrote 64 ∷ []) k ≡ ok w)
    × (w.writes ≡ taken_of parts ∷ [])
    × (on_reads (serve (answers services no_ends no_run_time)) 2 parts server_connection
        ≡ ok served)
    × (on_write (wrote 64 ∷ []) served ≡ ok w')
    × (w'.writes ≡ packets (response ∷ []) ∷ [])
    × (call_method net strerror parse (some 3) given call
          >>= run_events net strerror parse (connectable none none (pos 6) ∷ [])
          >>= run_events net strerror parse
              (writable (wrote 64 ∷ []) ∷ readable 2 (bytes (packets (response ∷ [])) ∷ []) ∷ [])
        ≡ ok t)
    × (t.runs ≡ 1)
    × IsFinished 3 t
    × ((t.controllers 3).error_code ≡ (
        if not (parse response.pb_data)
        then error_failed_serialize
        else if is_zero response.err_code
        then pos 0
        else response.err_code))
unfolding dispatch finish parse_service_full_name find_first_of lookup same
call_method-answered_example =
    call_method-answered services no_ends no_run_time net strerror parse 3 5 64 64 2 2 64 peer
      (1 ∷ []) (b'7' ∷ []) given none (pos 6) parts call server_connection call-IsFresh refl refl
      refl refl (omega arith) (record { state = refl; by = refl; out = roomy-IsOpen.valid })
      (record { opened = roomy-IsOpen; low = omega arith; sized = length-replicate {A = ℕ} 64 0 })
      (omega arith) (unfold contents in refl) (unfold contents in refl)
      (
        refl,
        headed 31 (take 7 (drop 5 stream)) refl (omega arith) (omega arith) waits_without_start,
        tt,
        omega arith,
        (refl, nothing refl, (request-IsSendable, tt), omega arith, tt),
      )
      (omega arith, (omega arith, tt)) (unfold messages_of in refl) (unfold left_of in refl)
      request-IsAnswered request-IsSendable (omega arith)
      (unfold init in omega (arith, length-replicate {A = ℕ} 128 0)) (omega arith)
