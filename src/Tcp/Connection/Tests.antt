-- ===== src/Tcp/Connection/Tests.antt =====
-- Runs of rocket/net/tcp/tcp_connection.cc.
use my_rocket.Base.{
  ℕ, ◌≡◌, ◌<◌, ◌⊎◌, refl, List, [], ◌∷◌, ◌++◌, length, map, arith, ok, true, false,
}
use my_rocket.Tcp.Buffer.{TcpBuffer, write_able}
use my_rocket.Tcp.Buffer.Invariant.{IsValid}
use my_rocket.Tcp.Buffer.Contents.{contents}
use my_rocket.Coder.TinyPb.{TinyPbProtocol, empty_protocol}
use my_rocket.Coder.TinyPb.Parse.{named}
use my_rocket.Coder.TinyPb.RoundTrip.{packets}
use my_rocket.Tcp.Connection.CutLength.{decode-cut_length}
use my_rocket.Coder.TinyPb.{decode}
use my_rocket.Coder.TinyPb.Parse.{packet}
use my_rocket.Base.{take, fault}
use my_rocket.Tcp.Buffer.{init}
use my_rocket.Tcp.Connection.{TcpConnection, connected, by_server, wrote, on_write, reply, receive}
use my_rocket.Tcp.Connection.Receive.{receive_lem}
use my_rocket.Tcp.Connection.Send.{reply_twice}

abbrev empty_buffer : TcpBuffer
empty_buffer = record { read_index = 0; write_index = 0; size = 2; buffer = 0 ∷ 0 ∷ [] }

abbrev empty_buffer-IsValid : IsValid empty_buffer
empty_buffer-IsValid = record { ordered = omega arith; bounded = omega arith }

receive_lem_example :
    ((2 < write_able empty_buffer)
      × (contents (receive (5 ∷ 6 ∷ []) empty_buffer) ≡ contents empty_buffer ++ 5 ∷ 6 ∷ []))
    ⊎ ((2 ≡ write_able empty_buffer)
        × (contents (receive (5 ∷ 6 ∷ []) empty_buffer) ≡ contents empty_buffer))
receive_lem_example = receive_lem empty_buffer (5 ∷ 6 ∷ []) empty_buffer-IsValid (omega arith)

abbrev serving : TcpConnection
serving = record {
  state = connected;
  connection_type = by_server;
  in_buffer = empty_buffer;
  out_buffer = empty_buffer;
  write_dones = [];
  read_dones = [];
  epoll_in = true;
  epoll_out = false;
  is_listed = true;
}

abbrev answer : List TinyPbProtocol
answer = record empty_protocol { msg_id = b'7' ∷ [] } ∷ []

abbrev wire : List ℕ
wire = packets (map named answer) ++ packets (map named answer)

reply_twice_example :
    (c1 : TcpConnection) × (c2 : TcpConnection) × (on_write
        (wrote (length wire) ∷ [])
        (reply answer serving)
      ≡ ok (record { writes = packets (map named answer) ∷ []; called = []; after = c1 }))
    × (on_write (wrote (length wire) ∷ []) (reply answer c1)
        ≡ ok (record { writes = wire ∷ []; called = []; after = c2 }))
reply_twice_example =
    reply_twice serving answer answer (length wire)
      (record { state = refl; by = refl; out = empty_buffer-IsValid }) (unfold contents in refl)
      (λ e. cc) (omega arith)

abbrev question : TinyPbProtocol
question = record empty_protocol { msg_id = b'7' ∷ []; pb_data = 2 ∷ [] }

decode-cut_length_example : decode 1 [] (receive (take 3 (packet question [])) (init 64)) ≡ fault
decode-cut_length_example =
    decode-cut_length question 3 64 0 [] (omega arith) (omega arith) (omega arith) (omega arith)
