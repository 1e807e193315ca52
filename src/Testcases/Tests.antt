-- ===== src/Testcases/Tests.antt =====
-- Requests to the server of testcases/test_rpc_server.cc.
use my_rocket.Base.{
  ℕ, ◌≡◌, refl, true, false, List, [], ◌∷◌, ◌++◌, Option, none, some, pos, arith, map, ok,
  replicate, length-replicate,
}
use my_rocket.Tcp.Buffer.{TcpBuffer}
use my_rocket.Tcp.Buffer.Contents.{contents}
use my_rocket.Tcp.Connection.{TcpConnection, connected, by_server}
use my_rocket.Tcp.Connection.Stream.{Part, messages_of, on_reads, serve, wire}
use my_rocket.Coder.TinyPb.{TinyPbProtocol, empty_protocol}
use my_rocket.Coder.TinyPb.Parse.{IsSendable, packet, received}
use my_rocket.Coder.TinyPb.RoundTrip.{IsOpen}
use my_rocket.Coder.TinyPb.Partial.{nothing}
use my_rocket.Rpc.Dispatcher.{RunTime, Ends, codes}
use my_rocket.Rpc.Dispatcher.Serving.{answers}
use my_rocket.Testcases.{
  MakeOrderRequest, MakeOrderResponse, is_cheap, services, placed, reply_of, on_reads-placed,
}

-- The price is the first byte.
abbrev parse : List ℕ → Option MakeOrderRequest
parse [] = none
parse (n ∷ goods) = some (record { price = pos n; goods = goods })

abbrev serialize : MakeOrderResponse → Option (List ℕ)
serialize r = some r.order_id

abbrev order_of : ℕ → TinyPbProtocol
order_of price = record empty_protocol {
  msg_id = b'7' ∷ [];
  method_name = codes "Order.makeOrder";
  pb_data = price ∷ [];
}

abbrev no_ends : Ends
no_ends = record { local = none; peer = none }

abbrev no_run_time : RunTime
no_run_time = record { msgid = []; method_name = [] }

-- A connection with buffers of 128 bytes.
abbrev roomy : TcpBuffer
roomy = record { read_index = 0; write_index = 0; size = 128; buffer = replicate 128 0 }

roomy-IsOpen : IsOpen roomy
roomy-IsOpen = record {
  valid = record { ordered = omega arith; bounded = omega (arith, length-replicate {A = ℕ} 128 0) };
  room = omega (arith, length-replicate {A = ℕ} 128 0);
  small = omega (arith, length-replicate {A = ℕ} 128 0);
}

abbrev connection : TcpConnection
connection = record {
  state = connected;
  connection_type = by_server;
  in_buffer = roomy;
  out_buffer = roomy;
  write_dones = [];
  read_dones = [];
  epoll_in = true;
  epoll_out = false;
  is_listed = true;
}

order_of-IsSendable : (price : ℕ) → IsSendable (order_of price)
order_of-IsSendable price = record {
  id_fits = omega arith;
  id_text = ground arith;
  name_fits = omega arith;
  name_text = ground arith;
  info_fits = omega arith;
  info_text = tt;
  code = omega arith;
  short = omega arith;
}

-- A cheap order, and one that is placed.
abbrev parts : List Part
parts =
    record { taken = packet (order_of 9) []; messages = order_of 9 ∷ []; left = [] }
    ∷ record { taken = packet (order_of 10) []; messages = order_of 10 ∷ []; left = [] }
    ∷ []

one_placed :
    placed parse serialize (codes "20230514") (map received (messages_of parts))
    ≡ reply_of parse serialize (codes "20230514") (order_of 10) ∷ []
unfolding placed messages_of is_cheap
one_placed = refl

on_reads-placed_example :
    (c : TcpConnection) × (on_reads
        (serve (answers (services parse serialize) no_ends no_run_time))
        2
        parts
        connection
      ≡ ok c)
    × (contents c.out_buffer
        ≡ contents connection.out_buffer
          ++ wire (placed parse serialize (codes "20230514") (map received (messages_of parts))))
on_reads-placed_example =
    on_reads-placed parse serialize no_ends no_run_time (codes "20230514") 128 2 parts connection
      (record { state = refl; by = refl; out = roomy-IsOpen.valid })
      (record { opened = roomy-IsOpen; low = omega arith; sized = length-replicate {A = ℕ} 128 0 })
      (omega arith)
      (unfold contents in
        (
          refl,
          nothing refl,
          (order_of-IsSendable 9, tt),
          omega arith,
          (refl, nothing refl, (order_of-IsSendable 10, tt), omega arith, tt),
        ))
      (omega arith, (omega arith, tt)) (unfold messages_of in (refl, (refl, tt))) refl
