-- ===== src/Tcp/Connection/Stream.antt =====
-- A stream of requests over several reads: `onRead` of tcp_connection.cc each time that bytes arrive,
-- wherever the packets are cut.
use mathlib.Core.List.{map-append}
use my_rocket.Base.{
  ℕ, ◌+◌, ◌*◌, ◌<◌, ◌≡◌, ◌^◌, refl, sym, ap, ◌∙◌, List, [], ◌∷◌, ◌++◌, length, map, arith, All, ok,
  leb, false, Outcome, ◌>>=◌, append-nil, append_assoc,
}
use my_rocket.Tcp.Buffer.{TcpBuffer, write_able, splice, adjust_buffer}
use my_rocket.Tcp.Buffer.Invariant.{IsValid, length-splice, length-adjust_buffer}
use my_rocket.Tcp.Buffer.Contents.{contents, length-contents}
use my_rocket.Tcp.Buffer.Room.{adjust_buffer-IsLow, write_able-IsLow}
use my_rocket.Coder.TinyPb.{TinyPbProtocol}
use my_rocket.Coder.TinyPb.Parse.{IsSendable, packet, received, named}
use my_rocket.Coder.TinyPb.RoundTrip.{packets}
use my_rocket.Coder.TinyPb.Partial.{Pending, IsReady, decode-packets-Pending}
use my_rocket.Tcp.Connection.{
  TcpConnection, connected, by_server, bytes, receive, serve_all, excute, on_read, reply,
  listen_write,
}
use my_rocket.Tcp.Connection.Receive.{receive_cases}
use my_rocket.Tcp.Connection.Serve.{receive-IsOpen, read_loop_one}
use my_rocket.Tcp.Connection.Send.{IsServing, reply_lem}

receive-IsReady :
    (size : ℕ) (b : TcpBuffer) (xs : List ℕ)
    → IsReady size b
    → length xs < write_able b
    → IsReady size (receive xs b) × (contents (receive xs b) ≡ contents b ++ xs)
receive-IsReady size b xs r h =
    let (o, held) = receive-IsOpen b xs r.opened h in
    let filled = splice b.buffer b.write_index xs in
    let same = length-splice b.buffer b.write_index xs (omega arith) in
    let b' = record b { buffer = filled; write_index = b.write_index + length xs } in
    let v' : IsValid b' = record {
      ordered = omega (arith, r.opened.valid.ordered);
      bounded = omega (arith, same);
    } in
    let shorter : leb (length filled) (b.write_index + length xs) ≡ false = ground (arith, same) in
    let after : receive xs b ≡ adjust_buffer b' = rw (receive_cases b xs, shorter) refl in
    (
      record {
        opened = o;
        low = rw after (adjust_buffer-IsLow b');
        sized = rw after (length-adjust_buffer b' v' ∙ (same ∙ r.sized));
      },
      held,
    )

-- The replies of one request, each a call of `reply`.
unfoldable pub reply_all : List (List TinyPbProtocol) → TcpConnection → TcpConnection
reply_all [] c = c
reply_all (ms ∷ rs) c = reply_all rs (reply ms c)

unfoldable pub joined : List (List TinyPbProtocol) → List TinyPbProtocol
joined [] = []
joined (ms ∷ rs) = ms ++ joined rs

-- One read: its bytes, the messages that are then whole, and the bytes that are left to wait.
pub record Part : Type 0 where
  pub taken : List ℕ
  pub messages : List TinyPbProtocol
  pub left : List ℕ

-- A stream in such parts, behind bytes `xs` that wait, for a buffer of `size` bytes.
abbrev pub IsCut : ℕ → List ℕ → List Part → Type 0
IsCut size xs [] = Unit
IsCut size xs (p ∷ ps) =
    (xs ++ p.taken ≡ packets p.messages ++ p.left)
    × Pending p.left
    × All IsSendable p.messages
    × (3 * (length xs + length p.taken) < 2 * size)
    × IsCut size p.left ps

unfoldable pub messages_of : List Part → List TinyPbProtocol
messages_of [] = []
messages_of (p ∷ ps) = p.messages ++ messages_of ps

-- What waits in the end.
unfoldable pub left_of : List ℕ → List Part → List ℕ
left_of xs [] = xs
left_of xs (p ∷ ps) = left_of p.left ps

-- A call of `onRead` for each part.
unfoldable pub on_reads :
    (TinyPbProtocol → TcpConnection → TcpConnection)
    → ℕ
    → List Part
    → TcpConnection
    → Outcome TcpConnection
unfolding on_read
on_reads serve fuel [] c = ok c
on_reads serve fuel (p ∷ ps) c =
    on_read serve fuel (bytes p.taken ∷ []) c >>= λ r. on_reads serve fuel ps r.1

module _ (serve : TinyPbProtocol → TcpConnection → TcpConnection) where
  -- One of them.
  on_read-part :
      (size fuel : ℕ) (xs : List ℕ) (p : Part) (c : TcpConnection)
      → c.state ≡ connected
      → c.connection_type ≡ by_server
      → IsReady size c.in_buffer
      → size < 2 ^ 30
      → contents c.in_buffer ≡ xs
      → IsCut size xs (p ∷ [])
      → length p.messages < fuel
      → (b : TcpBuffer) × (on_read serve fuel (bytes p.taken ∷ []) c
          ≡ ok ([], serve_all serve (map received p.messages) (record c { in_buffer = b })))
        × (contents b ≡ p.left)
        × IsReady size b
  unfolding on_read excute
  on_read-part size fuel xs p c state by r small e cut enough =
      let (whole, wait, sendable, fits, _) = cut in
      let before = length-contents c.in_buffer r.opened.valid in
      let room : length p.taken < write_able c.in_buffer =
        write_able-IsLow c.in_buffer (length p.taken) r.opened.valid r.low
          (omega (arith, fits, before, ap length e, r.sized)) in
      let (r', held) = receive-IsReady size c.in_buffer p.taken r room in
      let (b, decoded, left, r'') =
        decode-packets-Pending size p.messages p.left fuel [] (receive p.taken c.in_buffer) sendable
          wait r' small (held ∙ (ap (λ ys. ys ++ p.taken) e ∙ whole)) enough in
      (b, simp (state, by, read_loop_one serve c.in_buffer p.taken [] room, decoded), left, r'')

-- The bytes of replies, which are named as they are encoded.
abbrev pub wire : List TinyPbProtocol → List ℕ
wire ms = packets (map named ms)

wire-append : (xs ys : List TinyPbProtocol) → wire (xs ++ ys) ≡ wire xs ++ wire ys
wire-append [] ys = refl
wire-append (x ∷ xs) ys =
    ap (λ zs. packet (named x) [] ++ zs) (wire-append xs ys)
    ∙ sym (append_assoc (packet (named x) []) (wire xs) (wire ys))

-- Replies behind replies.
wire_grown :
    (out : List ℕ) (xs ys : List TinyPbProtocol) {out1 out2 : List ℕ}
    → out2 ≡ out1 ++ wire ys
    → out1 ≡ out ++ wire xs
    → out2 ≡ out ++ wire (xs ++ ys)
wire_grown out xs ys second first =
    second
    ∙ (ap (λ zs. zs ++ wire ys) first
        ∙ (append_assoc out (wire xs) (wire ys) ∙ ap (λ zs. out ++ zs) (sym (wire-append xs ys))))

reply_all_lem :
    (rs : List (List TinyPbProtocol)) (c : TcpConnection)
    → IsServing c
    → IsServing (reply_all rs c)
      × ((reply_all rs c).in_buffer ≡ c.in_buffer)
      × (contents (reply_all rs c).out_buffer ≡ contents c.out_buffer ++ wire (joined rs))
unfolding reply_all joined
reply_all_lem [] c s = (s, refl, sym (append-nil (contents c.out_buffer)))
reply_all_lem (ms ∷ rs) c s =
    let (s1, wired) = reply_lem ms c s in
    let (s2, same, wired') = reply_all_lem rs (reply ms c) s1 in
    (
      s2,
      same ∙ unfold reply listen_write in refl,
      wire_grown (contents c.out_buffer) ms (joined rs) wired' wired,
    )

module _ (answers : TinyPbProtocol → List (List TinyPbProtocol)) where
  -- The dispatcher, by the replies that it makes.
  abbrev pub serve : TinyPbProtocol → TcpConnection → TcpConnection
  serve m c = reply_all (answers m) c

  -- All replies to some messages.
  unfoldable pub answered : List TinyPbProtocol → List TinyPbProtocol
  answered [] = []
  answered (m ∷ ms) = joined (answers m) ++ answered ms

  answered-append : (xs ys : List TinyPbProtocol) → answered (xs ++ ys) ≡ answered xs ++ answered ys
  unfolding answered
  answered-append [] ys = refl
  answered-append (x ∷ xs) ys =
      rw (answered-append xs ys)
        (sym (append_assoc (joined (answers x)) (answered xs) (answered ys)))

  serve_all_lem :
      (ms : List TinyPbProtocol) (c : TcpConnection)
      → IsServing c
      → IsServing (serve_all serve ms c)
        × ((serve_all serve ms c).in_buffer ≡ c.in_buffer)
        × (contents (serve_all serve ms c).out_buffer ≡ contents c.out_buffer ++ wire (answered ms))
  unfolding serve_all answered
  serve_all_lem [] c s = (s, refl, sym (append-nil (contents c.out_buffer)))
  serve_all_lem (m ∷ ms) c s =
      let (s1, same, wired) = reply_all_lem (answers m) c s in
      let (s2, same', wired') = serve_all_lem ms (serve m c) s1 in
      (
        s2,
        same' ∙ same,
        wire_grown (contents c.out_buffer) (joined (answers m)) (answered ms) wired' wired,
      )

  -- However a stream of requests is cut into reads, up to a cut within a length and a start byte within
  -- what waits, a connected server answers each request once it is whole, in order: it reads every part
  -- to its end, its send buffer grows by exactly the packets of the replies to all messages, and the
  -- bytes of the packet that is not yet whole wait. Bytes that wait and those of the next read together
  -- are fewer than two thirds of the receive buffer, and `decode` has more rounds than messages.
  pub on_reads_lem :
      (size fuel : ℕ) (xs : List ℕ) (ps : List Part) (c : TcpConnection)
      → IsServing c
      → IsReady size c.in_buffer
      → size < 2 ^ 30
      → contents c.in_buffer ≡ xs
      → IsCut size xs ps
      → All (λ p. length p.messages < fuel) ps
      → (c' : TcpConnection) × (on_reads serve fuel ps c ≡ ok c')
        × (contents c'.out_buffer
            ≡ contents c.out_buffer ++ wire (answered (map received (messages_of ps))))
        × (contents c'.in_buffer ≡ left_of xs ps)
        × IsServing c'
        × IsReady size c'.in_buffer
  unfolding on_reads messages_of answered left_of
  on_reads_lem size fuel xs [] c s r small e cut enough =
      (c, refl, sym (append-nil (contents c.out_buffer)), e, s, r)
  on_reads_lem size fuel xs (p ∷ ps) c s r small e (whole, wait, sendable, fits, cuts) enough =
      let (b, run, left, r1) =
        on_read-part serve size fuel xs p c s.state s.by r small e (whole, wait, sendable, fits, tt)
          enough.0 in
      let c0 = record c { in_buffer = b } in
      let now = map received p.messages in
      let (s1, same, wired) =
        serve_all_lem now c0 (record { state = s.state; by = s.by; out = s.out }) in
      let c1 = serve_all serve now c0 in
      let (c', run', wired', rest', s', r') =
        on_reads_lem size fuel p.left ps c1 s1 (rw same r1) small (ap contents same ∙ left) cuts
          enough.1 in
      let all : map received (messages_of (p ∷ ps)) ≡ now ++ map received (messages_of ps) =
        unfold messages_of in rw map-append in
      (
        c',
        rw run run',
        wire_grown (contents c.out_buffer) (answered now) (answered (map received (messages_of ps)))
              wired' wired
            ∙ ap (λ zs. contents c.out_buffer ++ wire zs)
                (sym (rw all (answered-append now (map received (messages_of ps))))),
        rest',
        s',
        r',
      )
