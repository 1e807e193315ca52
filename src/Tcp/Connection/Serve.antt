-- ===== src/Tcp/Connection/Serve.antt =====
-- `onRead` and `excute` of tcp_connection.cc on the packets of a client.
use my_rocket.Base.{
  ℕ, ◌+◌, ◌<◌, ◌≡◌, refl, ◌∙◌, inl, inr, false, List, [], ◌∷◌, ◌++◌, length, map, leb, ◌==◌, arith,
  All, ok,
}
use my_rocket.Tcp.Buffer.{TcpBuffer, write_able, splice}
use my_rocket.Tcp.Buffer.Invariant.{
  IsValid, length-splice, length-adjust_buffer, write_index-adjust_buffer, adjust_buffer-IsValid,
}
use my_rocket.Tcp.Buffer.Contents.{contents}
use my_rocket.Coder.TinyPb.{TinyPbProtocol, decode}
use my_rocket.Coder.TinyPb.Parse.{IsSendable, received}
use my_rocket.Coder.TinyPb.RoundTrip.{IsOpen, packets, decode-packets}
use my_rocket.Tcp.Connection.{
  TcpConnection, connected, by_client, complete, ReadResult, bytes, read_all, receive, read_loop,
  excute, on_read,
}
use my_rocket.Tcp.Connection.Receive.{receive_lem, receive_cases}

-- A buffer with room keeps room behind bytes that fit.
pub receive-IsOpen :
    (b : TcpBuffer) (xs : List ℕ)
    → IsOpen b
    → length xs < write_able b
    → IsOpen (receive xs b) × (contents (receive xs b) ≡ contents b ++ xs)
receive-IsOpen b xs o h =
    let filled = splice b.buffer b.write_index xs in
    let size = length-splice b.buffer b.write_index xs (omega arith) in
    let b' = record b { buffer = filled; write_index = b.write_index + length xs } in
    let v' : IsValid b' = record {
      ordered = omega (arith, o.valid.ordered);
      bounded = omega (arith, size);
    } in
    let small : leb (length filled) (b.write_index + length xs) ≡ false = ground (arith, size) in
    (
      rw (receive_cases b xs, small)
          (record {
            valid = adjust_buffer-IsValid b' v';
            room = omega (arith, size, length-adjust_buffer b' v', write_index-adjust_buffer b');
            small = omega (arith, size, o.small, length-adjust_buffer b' v');
          }),
      elim (receive_lem b xs o.valid (omega arith)) [
        | inl (_, e) ↦ e
        | inr (e, _) ↦ absurd (omega arith)
      ],
    )

module _ (serve : TinyPbProtocol → TcpConnection → TcpConnection) where
  pub read_loop_one :
      (b : TcpBuffer) (xs : List ℕ) (rs : List ReadResult)
      → length xs < write_able b
      → read_loop (bytes xs ∷ rs) b ≡ ok (read_all, receive xs b)
  unfolding read_loop
  read_loop_one b xs rs h =
      let room : (write_able b == 0) ≡ false = ground arith in
      let short : (length xs == write_able b) ≡ false = ground arith in rw (room, short) refl

  -- What such a read leaves to decode.
  decoded_packets :
      (b : TcpBuffer) (ms : List TinyPbProtocol) (fuel : ℕ)
      → IsOpen b
      → contents b ≡ []
      → All IsSendable ms
      → length (packets ms) < write_able b
      → length ms < fuel
      → (b' : TcpBuffer) × (decode fuel [] (receive (packets ms) b) ≡ ok (map received ms, b'))
        × (contents b' ≡ [])
  decoded_packets b ms fuel o empty sendable fits enough =
      let (opened, held) = receive-IsOpen b (packets ms) o fits in
      decode-packets ms fuel [] (receive (packets ms) b) sendable opened (held ∙ rw empty refl)
        enough

  -- When one `read` gives a connected client exactly the packets of messages that meet the decoder's
  -- limits, its receive buffer has nothing to read and room for more than these bytes, and `decode`
  -- has more rounds than messages, then `onRead` ends, having called the callbacks of the messages that
  -- are waited for; nothing is left to read.
  pub on_read-answers :
      (c : TcpConnection) (ms : List TinyPbProtocol) (rs : List ReadResult) (fuel : ℕ)
      → c.state ≡ connected
      → c.connection_type ≡ by_client
      → IsOpen c.in_buffer
      → contents c.in_buffer ≡ []
      → All IsSendable ms
      → length (packets ms) < write_able c.in_buffer
      → length ms < fuel
      → let (called, left) = complete (map received ms) c.read_dones in
        (b : TcpBuffer) × (on_read serve fuel (bytes (packets ms) ∷ rs) c
          ≡ ok (called, record c { in_buffer = b; read_dones = left }))
        × (contents b ≡ [])
  unfolding on_read excute
  on_read-answers c ms rs fuel state by o empty sendable fits enough =
      let (b, decoded, left) = decoded_packets c.in_buffer ms fuel o empty sendable fits enough in
      (b, simp (state, by, read_loop_one c.in_buffer (packets ms) rs fits, decoded), left)
