-- ===== src/Coder/TinyPb/RoundTrip.antt =====
-- Whole buffers: what `encode` appends, and what `decode` makes of it.
use my_rocket.Base.{
  ℕ, zero, suc, ◌+◌, ◌-◌, ◌≤◌, ◌<◌, ◌≡◌, refl, sym, ap, ◌∙◌, List, [], ◌∷◌, ◌++◌, length, map, All,
  pos, some, ok, arith, length-append, lt→ltb, ◌-ℤ◌, ◌+ℤ◌, ◌^◌, append_assoc, append-nil, drop,
  take-append-drop, lt→leb, inl, inr, drop-append, length-map,
}
use my_rocket.Tcp.Buffer.{TcpBuffer, read_able, move_read_index, write_to_buffer}
use my_rocket.Tcp.Buffer.Invariant.{
  IsValid, write_to_buffer-IsValid, move_read_index-IsValid, move_read_index_room,
}
use my_rocket.Tcp.Buffer.Contents.{
  contents, length-contents, contents-write_to_buffer, move_read_index_lem,
}
use my_rocket.Coder.TinyPb.{TinyPbProtocol, pb_start, pb_end, packet_length, encode, scan, decode}
use my_rocket.Coder.TinyPb.Wire.{be32}
use my_rocket.Coder.TinyPb.Cursor.{At, At-skip, get_elem?-At, read_int32-At, end_position-pos}
use my_rocket.Coder.TinyPb.Parse.{
  IsSendable, packet, packet-append, length-packet, stamped, received, named, unchecked,
  encode_tiny_pb_lem, parse_packet-At,
}

-- A valid buffer shows its contents from the read index on.
pub contents-At :
    (b : TcpBuffer) (xs : List ℕ)
    → IsValid b
    → contents b ≡ xs
    → (post : List ℕ) × At b.buffer b.read_index (xs ++ post)
unfolding contents
contents-At b xs v e = (
  drop (read_able b) (drop b.read_index b.buffer),
  record {
    holds = rw (← e) (sym (take-append-drop (read_able b) (drop b.read_index b.buffer)));
    inside = omega (arith, v.ordered, v.bounded);
  },
)

-- The end byte of a packet is its last.
packet-end :
    (m : TinyPbProtocol) (tmp post : List ℕ) (i : ℕ)
    → At tmp i (packet m post)
    → At tmp (i + packet_length m - 1) (pb_end ∷ post)
packet-end m tmp post i a =
    At-skip body (pb_end ∷ post) (i + packet_length m - 1) (omega (arith, counted))
      (record { holds = a.holds ∙ regroup; inside = a.inside })
  where
    body : List ℕ
    body =
        pb_start
        ∷ (be32 (pos (packet_length m))
            ++ (be32 (pos (length m.msg_id))
                ++ (m.msg_id
                    ++ (be32 (pos (length m.method_name))
                        ++ (m.method_name
                            ++ (be32 m.err_code
                                ++ (be32 (pos (length m.err_info))
                                    ++ (m.err_info ++ (m.pb_data ++ be32 (pos 1))))))))))

    regroup : packet m post ≡ body ++ (pb_end ∷ post)
    regroup = simp append_assoc

    counted : length body + 1 ≡ packet_length m
    counted = simp length-append (omega arith)

-- A packet at the read index is found at once.
pub scan-packet :
    (m : TinyPbProtocol) (tmp post : List ℕ) (w rounds i : ℕ)
    → IsSendable m
    → At tmp i (packet m post)
    → i + packet_length m ≤ w
    → w < 2 ^ 31
    → scan tmp w (suc rounds) i ≡ ok (some (i, i + packet_length m - 1, pos (packet_length m)))
unfolding scan
scan-packet m tmp post w rounds i s a h k =
    let a1 = At-skip (pb_start ∷ []) _ (i + 1) refl a in
    rw (
      get_elem?-At pb_start _ a,
      lt→ltb (i + 1) w (omega arith),
      read_int32-At (pos (packet_length m)) _ (omega (arith, s.short)) a1,
      end_position-pos i (packet_length m) (omega arith) (omega arith),
      lt→leb w (i + packet_length m - 1) (omega arith),
      get_elem?-At pb_end post (packet-end m tmp post i a),
    )

-- Packets one behind the other.
abbrev pub packets : List TinyPbProtocol → List ℕ
packets [] = []
packets (m ∷ ms) = packet m [] ++ packets ms

-- One round of `decode` on a buffer that begins with a packet.
pub decode-packet :
    (m : TinyPbProtocol) (rest : List ℕ) (fuel : ℕ) (out : List TinyPbProtocol) (b : TcpBuffer)
    → IsSendable m
    → IsValid b
    → length b.buffer < 2 ^ 31
    → contents b ≡ packet m rest
    → decode (suc fuel) out b
      ≡ decode fuel (out ++ received m ∷ []) (move_read_index b (pos (packet_length m)))
unfolding decode
decode-packet m rest fuel out b s v small e =
    let n = packet_length m in
    let r = b.read_index in
    let (post, a) = contents-At b _ v e in
    let at : At b.buffer r (packet m (rest ++ post)) = rw (packet-append m rest post) at a in
    let fits : n + length rest ≡ b.write_index - r =
      omega (arith, ap length e, length-contents b v, length-packet m rest) in
    let rounds : b.write_index - r ≡ suc (b.write_index - r - 1) = omega arith in
    let moved : pos (r + n - 1) -ℤ pos r +ℤ pos 1 ≡ pos n = ground arith in
    rw (
      rounds,
      scan-packet m b.buffer (rest ++ post) b.write_index (b.write_index - r - 1) r s at
          (omega (arith, v.ordered)) (omega (arith, v.bounded)),
      parse_packet-At m s b.buffer (rest ++ post) r (r + n - 1) at (omega arith),
      moved,
    )

-- A buffer with nothing to read ends the loop.
pub decode-nothing :
    (fuel : ℕ) (out : List TinyPbProtocol) (b : TcpBuffer)
    → IsValid b
    → contents b ≡ []
    → decode (suc fuel) out b ≡ ok (out, b)
unfolding decode scan
decode-nothing fuel out b v e =
    let none_left : b.write_index - b.read_index ≡ 0 =
      omega (arith, ap length e, length-contents b v) in
    rw none_left

-- What holds of a receive buffer: valid, with free room behind what was received.
pub record IsOpen (b : TcpBuffer) : Type 0 where
  pub valid : IsValid b
  pub room : b.write_index < length b.buffer
  pub small : length b.buffer < 2 ^ 31

-- Skipping a packet that stands in front leaves the packets behind it.
pub skip-packet :
    (b : TcpBuffer) (m : TinyPbProtocol) (rest : List ℕ)
    → IsOpen b
    → contents b ≡ packet m rest
    → IsOpen (move_read_index b (pos (packet_length m)))
      × (contents (move_read_index b (pos (packet_length m))) ≡ rest)
skip-packet b m rest o e = (
  record {
    valid = move_read_index-IsValid b (pos n) o.valid (omega (arith, fits));
    room = omega (arith, move_read_index_room b (pos n) o.valid (omega (arith, fits)), o.room);
    small = omega (arith, move_read_index_room b (pos n) o.valid (omega (arith, fits)), o.small);
  },
  elim (move_read_index_lem b n o.valid fits) [
    | inl (_, left) ↦ left ∙ rw e dropped
    | inr (full, _) ↦ absurd (omega (arith, o.room, o.valid.ordered, fits))
  ],
)
  where
    n : ℕ
    n = packet_length m

    fits : n ≤ read_able b
    fits = omega (arith, ap length e, length-contents b o.valid, length-packet m rest)

    dropped : drop n (packet m rest) ≡ rest
    dropped =
        rw (← packet-append m [] rest)
          (drop-append n (packet m []) rest (omega (arith, length-packet m [])))

pub decode-packets :
    (ms : List TinyPbProtocol) (fuel : ℕ) (out : List TinyPbProtocol) (b : TcpBuffer)
    → All IsSendable ms
    → IsOpen b
    → contents b ≡ packets ms
    → length ms < fuel
    → (b' : TcpBuffer) × (decode fuel out b ≡ ok (out ++ map received ms, b')) × (contents b' ≡ [])
decode-packets ms zero out b s o e h = absurd (omega arith)
decode-packets [] (suc fuel) out b s o e h =
    (b, decode-nothing fuel out b o.valid e ∙ rw append-nil, e)
decode-packets (m ∷ ms) (suc fuel) out b s o e h =
    let e' : contents b ≡ packet m (packets ms) = e ∙ packet-append m [] (packets ms) in
    let (o', left) = skip-packet b m (packets ms) o e' in
    let (b', run, done) =
      decode-packets ms fuel (out ++ received m ∷ []) _ s.1 o' left (omega arith) in
    (
      b',
      decode-packet m (packets ms) fuel out b s.0 o.valid o.small e' ∙ run ∙ rw append_assoc,
      done,
    )

-- `encode` appends the packets of its messages, and stamps the lengths on them.
pub encode_lem :
    (ms : List TinyPbProtocol) (b : TcpBuffer)
    → IsValid b
    → ((encode ms b).0 ≡ map (λ m. stamped (named m)) ms)
      × (contents (encode ms b).1 ≡ contents b ++ packets (map named ms))
      × IsValid (encode ms b).1
unfolding encode
encode_lem [] b v = (refl, sym (append-nil (contents b)), v)
encode_lem (m ∷ ms) b v =
    let bytes = packet (named m) [] in
    let (stamps, wire, valid) =
      encode_lem ms (write_to_buffer b bytes) (write_to_buffer-IsValid b bytes v) in
    rw (encode_tiny_pb_lem m) (
      ap (◌∷◌ (stamped (named m))) stamps,
      wire ∙ rw (contents-write_to_buffer b bytes v, append_assoc),
      valid,
    )

All-named :
    (ms : List TinyPbProtocol) → All (λ m. IsSendable (named m)) ms → All IsSendable (map named ms)
All-named [] s = tt
All-named (m ∷ ms) s = (s.0, All-named ms s.1)

received-named :
    (ms : List TinyPbProtocol)
    → map received (map named ms) ≡ map unchecked (map (λ m. stamped (named m)) ms)
received-named [] = refl
received-named (m ∷ ms) = ap (◌∷◌ (received (named m))) (received-named ms)

-- Messages that meet the decoder's limits come back from the wire: when a receive buffer with free
-- room holds exactly what `encode` wrote to an empty send buffer, `decode` with more rounds than
-- messages ends, returns the messages as `encode` left them (but for the check sum, which is not
-- read), in order, and leaves nothing to read.
pub decode-encode :
    (ms : List TinyPbProtocol) (out b : TcpBuffer) (fuel : ℕ)
    → All (λ m. IsSendable (named m)) ms
    → IsValid out
    → contents out ≡ []
    → IsOpen b
    → contents b ≡ contents (encode ms out).1
    → length ms < fuel
    → (b' : TcpBuffer) × (decode fuel [] b ≡ ok (map unchecked (encode ms out).0, b'))
      × (contents b' ≡ [])
decode-encode ms out b fuel s v empty o e h =
    let (stamps, wire, _) = encode_lem ms out v in
    let (b', run, done) =
      decode-packets (map named ms) fuel [] b (All-named ms s) o
        (e ∙ wire ∙ ap (λ xs. xs ++ packets (map named ms)) empty) (rw (length-map named ms) h) in
    (b', rw (stamps, ← received-named ms) run, done)
