-- ===== src/Coder/TinyPb/Partial.antt =====
-- `decode` of tinypb_coder.cc where the last packet is only partly there.
use my_rocket.Base.{
  ℕ, zero, suc, ◌+◌, ◌-◌, ◌≤◌, ◌<◌, ◌≡◌, refl, ap, ◌∙◌, List, [], ◌∷◌, ◌++◌, length, map, All, pos,
  none, ok, arith, lt→ltb, le→ltb, ◌^◌, append_assoc, append-nil, le→leb,
}
use my_rocket.Tcp.Buffer.{TcpBuffer, read_able, move_read_index}
use my_rocket.Tcp.Buffer.Invariant.{IsValid, move_read_index_room}
use my_rocket.Tcp.Buffer.Room.{IsLow, move_read_index-IsLow}
use my_rocket.Tcp.Buffer.Contents.{contents, length-contents}
use my_rocket.Coder.TinyPb.{TinyPbProtocol, pb_start, scan, decode, packet_length}
use my_rocket.Coder.TinyPb.Wire.{be32}
use my_rocket.Coder.TinyPb.Cursor.{At, At-skip, get_elem?-At, read_int32-At, end_position-pos}
use my_rocket.Coder.TinyPb.Parse.{IsSendable, packet, packet-append, length-packet, received}
use my_rocket.Coder.TinyPb.RoundTrip.{IsOpen, contents-At, packets, decode-packet, skip-packet}
use my_rocket.Coder.TinyPb.Scan.{NoStart, scan-NoStart}

-- Bytes that wait for more: none, a start byte alone, or a start byte and a whole length that
-- announces more bytes than there are, with no other start byte among them.
pub data Pending (xs : List ℕ) : Type 0 where
  nothing : xs ≡ [] → Pending xs
  started : xs ≡ pb_start ∷ [] → Pending xs
  headed :
      (n : ℕ) (g : List ℕ)
      → xs ≡ pb_start ∷ (be32 (pos n) ++ g)
      → length xs < n
      → n < 2 ^ 30
      → NoStart (be32 (pos n) ++ g)
      → Pending xs

-- The scan ends behind bytes without a start byte.
scan-NoStart_end :
    (g xs tmp : List ℕ) (w i : ℕ)
    → NoStart g
    → At tmp i (g ++ xs)
    → scan tmp w (length g) i ≡ ok none
scan-NoStart_end g xs tmp w i s a =
    scan-NoStart g xs tmp w (length g) 0 i (i + length g) s a (omega arith) refl
    ∙ unfold scan in refl

-- Nothing is found in bytes that wait for more.
scan-Pending :
    (xs tmp post : List ℕ) (w i : ℕ)
    → Pending xs
    → At tmp i (xs ++ post)
    → w ≡ i + length xs
    → w < 2 ^ 30
    → scan tmp w (length xs) i ≡ ok none
scan-Pending xs tmp post w i (nothing e) a h k = rw e (unfold scan in refl)
scan-Pending xs tmp post w i (started e) a h k =
    let a' : At tmp i (pb_start ∷ post) = rw e at a in
    let last : w ≡ i + 1 = omega (arith, h, ap length e) in
    rw e (unfold scan in rw (get_elem?-At pb_start post a', le→ltb (i + 1) w (omega arith)) refl)
scan-Pending xs tmp post w i (headed n g e short small s) a h k =
    let t = be32 (pos n) ++ g in
    let a' : At tmp i (pb_start ∷ (t ++ post)) = rw e at a in
    let a1 = At-skip (pb_start ∷ []) (t ++ post) (i + 1) refl a' in
    let long : w ≡ i + suc (length t) = omega (arith, h, ap length e) in
    rw e (
      unfold scan in
      rw
        (
          get_elem?-At pb_start (t ++ post) a',
          lt→ltb (i + 1) w (omega arith),
          read_int32-At (pos n) (g ++ post) (omega arith) (rw append_assoc at a1),
          end_position-pos i n (omega arith) (omega arith),
          le→leb w (i + n - 1) (omega (arith, short)),
        )
        (scan-NoStart_end t post tmp w (i + 1) s a1))

-- Bytes that wait for more are left alone.
pub decode-Pending :
    (xs : List ℕ) (fuel : ℕ) (out : List TinyPbProtocol) (b : TcpBuffer)
    → Pending xs
    → IsValid b
    → length b.buffer < 2 ^ 30
    → contents b ≡ xs
    → decode (suc fuel) out b ≡ ok (out, b)
unfolding decode
decode-Pending xs fuel out b p v small e =
    let (post, a) = contents-At b xs v e in
    let size : b.write_index - b.read_index ≡ length xs =
      omega (arith, ap length e, length-contents b v) in
    let none_found =
      scan-Pending xs b.buffer post b.write_index b.read_index p a (omega (arith, v.ordered))
        (omega (arith, v.bounded)) in
    rw size (rw none_found refl)

-- A receive buffer of `size` bytes as it is between two reads.
pub record IsReady (size : ℕ) (b : TcpBuffer) : Type 0 where
  pub opened : IsOpen b
  pub low : IsLow b
  pub sized : length b.buffer ≡ size

skip_packet-IsReady :
    (size : ℕ) (b : TcpBuffer) (m : TinyPbProtocol) (rest : List ℕ)
    → IsReady size b
    → contents b ≡ packet m rest
    → IsReady size (move_read_index b (pos (packet_length m)))
      × (contents (move_read_index b (pos (packet_length m))) ≡ rest)
skip_packet-IsReady size b m rest r e =
    let n = packet_length m in
    let (o, left) = skip-packet b m rest r.opened e in
    let fits : n ≤ read_able b =
      omega (arith, ap length e, length-contents b r.opened.valid, length-packet m rest) in
    (
      record {
        opened = o;
        low = move_read_index-IsLow b n r.low;
        sized = (move_read_index_room b (pos n) r.opened.valid (omega (arith, fits))).0 ∙ r.sized;
      },
      left,
    )

-- A buffer that holds the packets of sendable messages and then bytes that wait for more: `decode`
-- returns the messages, in order, and leaves those bytes.
pub decode-packets-Pending :
    (size : ℕ) (ms : List TinyPbProtocol) (xs : List ℕ) (fuel : ℕ) (out : List TinyPbProtocol)
    (b : TcpBuffer)
    → All IsSendable ms
    → Pending xs
    → IsReady size b
    → size < 2 ^ 30
    → contents b ≡ packets ms ++ xs
    → length ms < fuel
    → (b' : TcpBuffer) × (decode fuel out b ≡ ok (out ++ map received ms, b'))
      × (contents b' ≡ xs)
      × IsReady size b'
decode-packets-Pending size ms xs zero out b s p r small e h = absurd (omega arith)
decode-packets-Pending size [] xs (suc fuel) out b s p r small e h = (
  b,
  decode-Pending xs fuel out b p r.opened.valid (omega (arith, r.sized)) e ∙ rw append-nil,
  e,
  r,
)
decode-packets-Pending size (m ∷ ms) xs (suc fuel) out b s p r small e h =
    let rest = packets ms ++ xs in
    let e' : contents b ≡ packet m rest =
      e ∙ (append_assoc (packet m []) (packets ms) xs ∙ packet-append m [] rest) in
    let (r', left) = skip_packet-IsReady size b m rest r e' in
    let (b', run, wait, r'') =
      decode-packets-Pending size ms xs fuel (out ++ received m ∷ []) _ s.1 p r' small left
        (omega arith) in
    (
      b',
      decode-packet m rest fuel out b s.0 r.opened.valid r.opened.small e' ∙ run ∙ rw append_assoc,
      wait,
      r'',
    )
