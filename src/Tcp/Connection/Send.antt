-- ===== src/Tcp/Connection/Send.antt =====
-- What `onWrite` of tcp_connection.cc puts on the wire.
use my_rocket.Base.{
  ℕ, ◌≤◌, ◌≡◌, ◌≢◌, refl, sym, ◌∙◌, true, false, List, [], ◌∷◌, ◌++◌, length, map, ◌==◌, arith, ok,
  length-append, le→leb, ne→==,
}
use my_rocket.Tcp.Buffer.{TcpBuffer, read_able}
use my_rocket.Tcp.Buffer.Invariant.{IsValid}
use my_rocket.Tcp.Buffer.Contents.{contents, length-contents}
use my_rocket.Coder.TinyPb.{TinyPbProtocol, encode}
use my_rocket.Coder.TinyPb.Parse.{named, stamped}
use my_rocket.Coder.TinyPb.RoundTrip.{packets, encode_lem}
use my_rocket.Tcp.Connection.{
  TcpConnection, connected, by_server, by_client, sent, wrote, attempts, on_write, reply,
  listen_write, write_loop, unlisten,
}

-- A server's connection on which requests are answered.
pub record IsServing (c : TcpConnection) : Type 0 where
  pub state : c.state ≡ connected
  pub by : c.connection_type ≡ by_server
  pub out : IsValid c.out_buffer

length-zero : (xs : List ℕ) → length xs ≡ 0 → xs ≡ []
length-zero [] h = refl
length-zero (x ∷ xs) h = ground arith

-- A socket that takes everything: one `write` of all the contents, if there are any.
write_loop_all :
    (b : TcpBuffer) (n : ℕ)
    → IsValid b
    → length (contents b) ≤ n
    → contents b ≢ []
    → write_loop (wrote n ∷ []) b ≡ ok (contents b ∷ [], true)
unfolding attempts contents
write_loop_all b n v h ne =
    let readable : (read_able b == 0) ≡ false =
      ne→== (read_able b) 0 (λ e. ne (length-zero (contents b) (length-contents b v ∙ e))) in
    simp (readable, le→leb (length (contents b)) n h)

-- When a socket takes all that it is given, a write event of a server's connection hands the
-- whole contents of the send buffer to it and stops listening; the contents stay in the buffer.
pub on_write_lem :
    (c : TcpConnection) (n : ℕ)
    → IsServing c
    → contents c.out_buffer ≢ []
    → length (contents c.out_buffer) ≤ n
    → on_write (wrote n ∷ []) c
      ≡ ok (record { writes = contents c.out_buffer ∷ []; called = []; after = unlisten true c })
unfolding on_write
on_write_lem c n s ne h = simp (s.state, s.by, write_loop_all c.out_buffer n s.out h ne)

pub reply_lem :
    (ms : List TinyPbProtocol) (c : TcpConnection)
    → IsServing c
    → IsServing (reply ms c)
      × (contents (reply ms c).out_buffer ≡ contents c.out_buffer ++ packets (map named ms))
unfolding reply listen_write
reply_lem ms c s =
    let (_, wire, valid) = encode_lem ms c.out_buffer s.out in
    (record { state = s.state; by = s.by; out = valid }, wire)

-- The same for known contents.
write_all :
    (c : TcpConnection) (n : ℕ) (xs : List ℕ)
    → IsServing c
    → contents c.out_buffer ≡ xs
    → xs ≢ []
    → length xs ≤ n
    → on_write (wrote n ∷ []) c
      ≡ ok (record { writes = xs ∷ []; called = []; after = unlisten true c })
write_all c n xs s e ne h = on_write_lem c n s (λ z. ne (sym e ∙ z)) (rw e h) ∙ rw e refl

append_ne : (xs ys : List ℕ) → xs ≢ [] → xs ++ ys ≢ []
append_ne [] ys ne = λ e. ne refl
append_ne (x ∷ xs) ys ne = ground arith

-- The send buffer is never emptied. On a connected server's connection with nothing to send, and with
-- a socket that takes at least the bytes of both replies at once, a first reply that is not empty is
-- written out; when a second reply follows, its write event sends the packets of the first once more,
-- in front of its own.
pub reply_twice :
    (c : TcpConnection) (ms ms' : List TinyPbProtocol) (n : ℕ)
    → IsServing c
    → contents c.out_buffer ≡ []
    → packets (map named ms) ≢ []
    → length (packets (map named ms) ++ packets (map named ms')) ≤ n
    → (c1 : TcpConnection) × (c2 : TcpConnection) × (on_write (wrote n ∷ []) (reply ms c)
        ≡ ok (record { writes = packets (map named ms) ∷ []; called = []; after = c1 }))
      × (on_write (wrote n ∷ []) (reply ms' c1)
          ≡ ok (record {
            writes = (packets (map named ms) ++ packets (map named ms')) ∷ [];
            called = [];
            after = c2;
          }))
reply_twice c ms ms' n s empty some_bytes h =
    let c1 = unlisten true (reply ms c) in
    let (s1, e1) = reply_lem ms c s in
    let (s2, e2) = reply_lem ms' c1 (record { state = s1.state; by = s1.by; out = s1.out }) in
    let first_wire = packets (map named ms) in
    let wire = first_wire ++ packets (map named ms') in
    let before = length-append first_wire (packets (map named ms')) in
    let held : contents (reply ms c).out_buffer ≡ first_wire = e1 ∙ rw empty refl in
    (
      c1,
      unlisten true (reply ms' c1),
      write_all (reply ms c) n first_wire s1 held some_bytes (omega (arith, before, h)),
      write_all (reply ms' c1) n wire s2 (e2 ∙ rw held refl) (append_ne first_wire _ some_bytes) h,
    )

-- When a socket takes all that it is given, a write event of a connected client with nothing else to
-- send puts the packet of its one message on the wire, calls its callback with the message as it was
-- sent, and stops listening.
pub on_write_client :
    (c : TcpConnection) (m : TinyPbProtocol) (done n : ℕ)
    → c.state ≡ connected
    → c.connection_type ≡ by_client
    → IsValid c.out_buffer
    → contents c.out_buffer ≡ []
    → c.write_dones ≡ (m, done) ∷ []
    → length (packets (named m ∷ [])) ≤ n
    → (b : TcpBuffer) × (on_write (wrote n ∷ []) c
        ≡ ok (record {
          writes = packets (named m ∷ []) ∷ [];
          called = (done, stamped (named m)) ∷ [];
          after = record (unlisten true c) { out_buffer = b; write_dones = [] };
        }))
unfolding on_write sent
on_write_client c m done n state by v empty one h =
    let (stamps, wire, valid) = encode_lem (m ∷ []) c.out_buffer v in
    let b = (encode (m ∷ []) c.out_buffer).1 in
    let held : contents b ≡ packets (named m ∷ []) = wire ∙ rw empty refl in
    let all_written = write_loop_all b n valid (rw held h) (λ e. cc) in
    (b, simp (state, by, one, all_written, stamps, held))
