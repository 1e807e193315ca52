-- ===== src/Rpc/Dispatcher/Tests.antt =====
-- Requests to rocket/net/rpc/rpc_dispatcher.cc.
use my_rocket.Base.{ℕ, List, ◌++◌, true, false, replicate, length-replicate, take, drop, ok, map}
use my_rocket.Tcp.Buffer.{TcpBuffer}
use my_rocket.Tcp.Buffer.Contents.{contents}
use my_rocket.Coder.TinyPb.Parse.{IsSendable, packet, received}
use my_rocket.Coder.TinyPb.RoundTrip.{IsOpen}
use my_rocket.Coder.TinyPb.Scan.{NoStart}
use my_rocket.Coder.TinyPb.Wire.{be32}
use my_rocket.Coder.TinyPb.Partial.{headed, nothing}
use my_rocket.Tcp.Connection.{TcpConnection, connected, by_server}
use my_rocket.Tcp.Connection.Stream.{Part, messages_of, left_of, on_reads, serve, wire}
use my_rocket.Rpc.Dispatcher.Serving.{answers, Responses, on_reads-dispatch}
use my_rocket.Base.{◌≡◌, ◌⊎◌, refl, [], ◌∷◌, none, some, Text, pos, arith}
use my_rocket.Coder.TinyPb.{TinyPbProtocol, empty_protocol}
use my_rocket.Rpc.Dispatcher.{Service, ServiceMap, RunTime, Ends, register_service, dispatch, codes}
use my_rocket.Rpc.Dispatcher.Routing.{dispatch-register_service, IsAnswered, dispatch_replies}

-- A service that gives the data back, by whatever method.
abbrev echo : Text → Service Text Text Text
echo name = record {
  full_name = name;
  find_method = λ m. some m;
  parse_request = λ m bytes. some bytes;
  call_method = λ m c req. some req;
  serialize = λ rsp. some rsp;
}

abbrev no_ends : Ends
no_ends = record { local = none; peer = none }

abbrev no_run_time : RunTime
no_run_time = record { msgid = []; method_name = [] }

abbrev request : TinyPbProtocol
request = record empty_protocol {
  msg_id = b'7' ∷ [];
  method_name = b'E' ∷ b'.' ∷ b'e' ∷ [];
  pb_data = 1 ∷ [];
}

abbrev dotted : ServiceMap Text Text Text
dotted = (codes "a.E", echo (codes "a.E")) ∷ []

dispatch_replies_example :
    let d = dispatch dotted no_ends request empty_protocol no_run_time in
    (IsAnswered dotted no_ends request × (d.replies ≡ (d.response ∷ []) ∷ []))
    ⊎ ((¬ IsAnswered dotted no_ends request) × (d.replies ≡ []))
dispatch_replies_example = dispatch_replies dotted no_ends request empty_protocol no_run_time

dispatch-register_service_example :
    dispatch (register_service (echo (b'E' ∷ [])) []) no_ends request empty_protocol no_run_time ≡ (
      let rsp = record empty_protocol {
        msg_id = request.msg_id;
        method_name = request.method_name;
        pb_data = 1 ∷ [];
        err_code = pos 0;
        err_info = [];
      } in
      record {
        response = rsp;
        run_time = record { msgid = request.msg_id; method_name = b'e' ∷ [] };
        replies = (rsp ∷ []) ∷ [];
      })
dispatch-register_service_example =
    dispatch-register_service (echo (b'E' ∷ [])) [] no_ends request empty_protocol no_run_time
      (b'e' ∷ []) (b'e' ∷ []) (1 ∷ []) (1 ∷ []) (1 ∷ []) ((λ e. omega (arith, e)), tt) refl refl
      refl refl refl

-- A connection with buffers of 64 bytes.
abbrev roomy : TcpBuffer
roomy = record { read_index = 0; write_index = 0; size = 64; buffer = replicate 64 0 }

roomy-IsOpen : IsOpen roomy
roomy-IsOpen = record {
  valid = record { ordered = omega arith; bounded = omega (arith, length-replicate {A = ℕ} 64 0) };
  room = omega (arith, length-replicate {A = ℕ} 64 0);
  small = omega (arith, length-replicate {A = ℕ} 64 0);
}

abbrev open_connection : TcpConnection
open_connection = record {
  state = connected;
  connection_type = by_server;
  in_buffer = roomy;
  out_buffer = roomy;
  write_dones = [];
  read_dones = [];
  epoll_in = true;
  epoll_out = false;
  is_listed = true;
}

request-IsSendable : IsSendable request
request-IsSendable = record {
  id_fits = omega arith;
  id_text = ((λ e. omega (arith, e)), tt);
  name_fits = omega arith;
  name_text = ((λ e. omega (arith, e)), (((λ e. omega (arith, e)), ((λ e. omega (arith, e)), tt))));
  info_fits = omega arith;
  info_text = tt;
  code = omega arith;
  short = omega arith;
}

abbrev stream : List ℕ
stream = packet request []

-- The first twelve bytes, and the others.
abbrev parts : List Part
parts =
    record { taken = take 12 stream; messages = []; left = take 12 stream }
    ∷ record { taken = drop 12 stream; messages = request ∷ []; left = [] }
    ∷ []

waits_without_start : NoStart (be32 (pos 31) ++ take 7 (drop 5 stream))
waits_without_start = ground arith

abbrev local_services : ServiceMap Text Text Text
local_services = (b'E' ∷ [], echo (b'E' ∷ [])) ∷ []

on_reads-dispatch_example :
    (c' : TcpConnection) × (rsps : List TinyPbProtocol) × (on_reads
        (serve (answers local_services no_ends no_run_time))
        2
        parts
        open_connection
      ≡ ok c')
    × Responses local_services no_ends no_run_time (map received (messages_of parts)) rsps
    × (contents c'.out_buffer ≡ contents open_connection.out_buffer ++ wire rsps)
    × (contents c'.in_buffer ≡ left_of (contents open_connection.in_buffer) parts)
on_reads-dispatch_example =
    on_reads-dispatch local_services no_ends no_run_time 64 2 parts open_connection
      (record { state = refl; by = refl; out = roomy-IsOpen.valid })
      (record { opened = roomy-IsOpen; low = omega arith; sized = length-replicate {A = ℕ} 64 0 })
      (omega arith)
      (unfold contents in
        (
          refl,
          headed 31 (take 7 (drop 5 stream)) refl (omega arith) (omega arith) waits_without_start,
          tt,
          omega arith,
          (refl, nothing refl, (request-IsSendable, tt), omega arith, tt),
        ))
      (omega arith, (omega arith, tt))
