-- ===== src/Coder/TinyPb/Hostile.antt =====
-- `decode` of tinypb_coder.cc on bytes that no encoder wrote.
use my_rocket.Base.{
  ℕ, zero, suc, ◌+◌, ◌-◌, ◌≤◌, ◌≡◌, refl, ap, ◌∙◌, List, [], ◌∷◌, ◌++◌, length, pos, none, some, ok,
  stuck, arith, length-append, lt→ltb, le→ltb, ◌-ℤ◌, ◌+ℤ◌, append_assoc, drop, lt→leb,
  drop-append_le,
}
use my_rocket.Tcp.Buffer.{TcpBuffer, read_able, move_read_index}
use my_rocket.Tcp.Buffer.Contents.{contents, length-contents}
use my_rocket.Coder.TinyPb.{
  TinyPbProtocol, pb_start, pb_end, packet_length, scan, end_position, find_packet, parse_packet,
  decode,
}
use my_rocket.Coder.TinyPb.Cursor.{At, At-skip, get_elem?-At, read_int32-At}
use my_rocket.Coder.TinyPb.Parse.{
  IsSendable, packet, packet-append, length-packet, received, parse_packet-At,
}
use my_rocket.Coder.TinyPb.RoundTrip.{IsOpen, contents-At, scan-packet}
use my_rocket.Coder.TinyPb.Scan.{NoStart, scan-NoStart, move_read_index-IsOpen}

-- The endless packet: an end byte, then a start byte with length 0.
abbrev pub endless : List ℕ → List ℕ
endless rest = pb_end ∷ pb_start ∷ 0 ∷ 0 ∷ 0 ∷ 0 ∷ rest

find-endless :
    (b : TcpBuffer) (rest : List ℕ)
    → IsOpen b
    → contents b ≡ endless rest
    → find_packet b ≡ ok (some (b.read_index + 1, b.read_index, pos 0))
find-endless b rest o e =
    let r = b.read_index in
    let w = b.write_index in
    let (post, a) = contents-At b _ o.valid e in
    let a1 = At-skip (pb_end ∷ []) _ (r + 1) refl a in
    let a2 = At-skip (pb_start ∷ []) _ (r + 1 + 1) refl a1 in
    let long : length (endless rest) ≡ w - r =
      omega (arith, ap length e, length-contents b o.valid) in
    let past : scan b.buffer w (w - r) r ≡ scan b.buffer w (suc (w - r - 2)) (r + 1) =
      scan-NoStart (pb_end ∷ []) _ b.buffer w (w - r) (suc (w - r - 2)) r (r + 1) (omega arith) a
        (omega arith) (omega arith) in
    rw past (
      unfold scan in
      rw (
        get_elem?-At pb_start _ a1,
        lt→ltb (r + 1 + 1) w (omega arith),
        read_int32-At (pos 0) (rest ++ post) (omega arith) a2,
        front,
        lt→leb w r (omega arith),
        get_elem?-At pb_end _ a,
      ))
  where
    front : end_position (b.read_index + 1) (pos 0) ≡ ok (pos b.read_index)
    front = unfold end_position in ground (arith, o.valid.ordered, o.room, o.small)

-- On a receive buffer whose readable bytes begin with 3, 2 and the length 0, `decode` finds an empty
-- packet, moves on by 0 bytes and finds it again: no amount of rounds ends it.
pub decode-endless :
    (fuel : ℕ) (out : List TinyPbProtocol) (b : TcpBuffer) (rest : List ℕ)
    → IsOpen b
    → contents b ≡ endless rest
    → decode fuel out b ≡ stuck
unfolding decode
decode-endless zero out b rest o e = refl
decode-endless (suc fuel) out b rest o e =
    let (o', same) = move_read_index-IsOpen b 0 o (omega arith) in
    rw (find-endless b rest o e, nothing, moved)
      (decode-endless fuel out (move_read_index b (pos 0)) rest o' (same ∙ e))
  where
    nothing : parse_packet b.buffer (b.read_index + 1) b.read_index (pos 0) ≡ ok none
    nothing =
        unfold parse_packet in rw (le→ltb (b.read_index + 1 + 5) b.read_index (omega arith)) refl

    moved : pos b.read_index -ℤ pos (b.read_index + 1) +ℤ pos 1 ≡ pos 0
    moved = ground arith

find-garbage :
    (b : TcpBuffer) (m : TinyPbProtocol) (g rest post : List ℕ)
    → IsOpen b
    → IsSendable m
    → NoStart g
    → contents b ≡ g ++ packet m rest
    → At b.buffer b.read_index (g ++ (packet m rest ++ post))
    → find_packet b
      ≡ ok (
          some (
            b.read_index + length g,
            b.read_index + length g + packet_length m - 1,
            pos (packet_length m),
          ))
find-garbage b m g rest post o s ns e a =
    let r = b.read_index in
    let w = b.write_index in
    let rounds : ℕ = w - r - length g - 1 in
    let fits : w - r ≡ length g + (packet_length m + length rest) = omega (
      arith,
      ap length e,
      length-contents b o.valid,
      length-append g (packet m rest),
      length-packet m rest,
    ) in
    scan-NoStart g (packet m rest ++ post) b.buffer w (w - r) (suc rounds) r (r + length g) ns a
      (omega arith) refl
    ∙ scan-packet m b.buffer (rest ++ post) w rounds (r + length g) s
        (rw (packet-append m rest post) at (At-skip g _ (r + length g) refl a))
        (omega (arith, o.valid.ordered)) (omega (arith, o.small, o.valid.bounded))

-- A packet behind bytes that are no start byte is delivered, but the read index moves by the
-- packet's length from the first of those bytes: where they are at least as many as the packet is
-- long, the whole packet is still there to be delivered again.
pub decode-garbage :
    (fuel : ℕ) (out : List TinyPbProtocol) (b : TcpBuffer) (m : TinyPbProtocol) (g rest : List ℕ)
    → IsOpen b
    → IsSendable m
    → NoStart g
    → packet_length m ≤ length g
    → contents b ≡ g ++ packet m rest
    → let b' = move_read_index b (pos (packet_length m)) in
      (decode (suc fuel) out b ≡ decode fuel (out ++ received m ∷ []) b')
      × IsOpen b'
      × (contents b' ≡ drop (packet_length m) g ++ packet m rest)
unfolding decode
decode-garbage fuel out b m g rest o s ns long e =
    let n = packet_length m in
    let r = b.read_index in
    let (post, a) = contents-At b _ o.valid e in
    let a0 : At b.buffer r (g ++ (packet m rest ++ post)) =
      rw (append_assoc g (packet m rest) post) at a in
    let placed = At-skip g (packet m rest ++ post) (r + length g) refl a0 in
    let at' : At b.buffer (r + length g) (packet m (rest ++ post)) =
      rw (packet-append m rest post) at placed in
    let moved : pos (r + length g + n - 1) -ℤ pos (r + length g) +ℤ pos 1 ≡ pos n = ground arith in
    let fits : n ≤ read_able b =
      omega (arith, ap length e, length-contents b o.valid, length-append g (packet m rest)) in
    let (o', left) = move_read_index-IsOpen b n o fits in
    (
      rw (
        find-garbage b m g rest post o s ns e a0,
        parse_packet-At m s b.buffer (rest ++ post) (r + length g) (r + length g + n - 1) at'
            (omega arith),
        moved,
      ),
      o',
      left ∙ rw (e, drop-append_le n g (packet m rest) long),
    )
