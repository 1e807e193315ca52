-- ===== src/Tcp/Connection/CutLength.antt =====
-- A read that ends within the length of a packet, and `decode` of tinypb_coder.cc behind it.
use my_rocket.Base.{
  ℕ, zero, suc, ◌+◌, ◌-◌, ◌/◌, ◌≤◌, ◌<◌, ◌≡◌, refl, ap, ◌∙◌, List, [], ◌∷◌, ◌++◌, length, pos, take,
  drop, replicate, length-replicate, true, false, fault, arith, lt→ltb, leb, ltb,
}
use my_rocket.Tcp.Buffer.{TcpBuffer, init, splice, adjust_buffer}
use my_rocket.Coder.TinyPb.{TinyPbProtocol, pb_start, packet_length, scan, decode, end_position}
use my_rocket.Coder.TinyPb.Wire.{be32}
use my_rocket.Coder.TinyPb.Cursor.{At, At-skip, get_elem?-At, read_int32-At}
use my_rocket.Coder.TinyPb.Parse.{packet, id_part}
use my_rocket.Tcp.Connection.{receive}
use my_rocket.Tcp.Connection.Receive.{receive_cases}

-- The length 0 at the front of the vector: the end byte is looked for before the vector.
decode-zero_length :
    (b : TcpBuffer) (rest : List ℕ) (fuel : ℕ) (out : List TinyPbProtocol)
    → b.read_index ≡ 0
    → 1 < b.write_index
    → At b.buffer 0 (pb_start ∷ 0 ∷ 0 ∷ 0 ∷ 0 ∷ rest)
    → decode (suc fuel) out b ≡ fault
unfolding decode
decode-zero_length b rest fuel out front some_bytes a =
    let a1 = At-skip (pb_start ∷ []) _ 1 refl a in
    let rounds : b.write_index - 0 ≡ suc (b.write_index - 1) = omega arith in
    rw front (
      rw rounds (
        unfold scan in
        rw
          (
            get_elem?-At pb_start _ a,
            lt→ltb 1 b.write_index some_bytes,
            read_int32-At (pos 0) rest (omega arith) a1,
          )
          (unfold end_position in refl)))

be32_small : (n : ℕ) → n < 256 → be32 (pos n) ≡ 0 ∷ 0 ∷ 0 ∷ n ∷ []
be32_small n h = ground (arith, h)

-- The first bytes of a short packet.
take-packet :
    (m : TinyPbProtocol) (j : ℕ)
    → packet_length m < 256
    → j ≤ 3
    → take (suc j) (packet m []) ≡ pb_start ∷ replicate j 0
take-packet m j h k =
    ap (λ w. take (suc j) (pb_start ∷ (w ++ id_part m []))) (be32_small (packet_length m) h)
    ∙ fronts j k
  where
    fronts :
        (i : ℕ)
        → i ≤ 3
        → take (suc i) (pb_start ∷ 0 ∷ 0 ∷ 0 ∷ packet_length m ∷ id_part m [])
          ≡ pb_start ∷ replicate i 0
    fronts zero l = refl
    fronts (suc zero) l = refl
    fronts (suc (suc zero)) l = refl
    fronts (suc (suc (suc zero))) l = refl
    fronts (suc (suc (suc (suc i)))) l = absurd (omega arith)

abbrev zeros : ℕ → List ℕ
zeros n = replicate n 0

replicate_over : (j n : ℕ) → j ≤ n → zeros j ++ drop j (zeros n) ≡ zeros n
replicate_over zero n h = refl
replicate_over (suc j) zero h = absurd (omega arith)
replicate_over (suc j) (suc n) h = ap (◌∷◌ 0) (replicate_over j n (omega arith))

-- Zeros behind a start byte, on a new buffer.
splice-zeros :
    (j n : ℕ) → j < n → splice (zeros (suc n)) 0 (pb_start ∷ zeros j) ≡ pb_start ∷ zeros n
unfolding splice
splice-zeros j n h =
    let past : 0 + suc (length (zeros j)) ≡ suc j = omega (arith, length-replicate {A = ℕ} j 0) in
    rw past (ap (◌∷◌ pb_start) (replicate_over j n (omega arith)))

receive-init :
    (j n : ℕ)
    → j < n
    → 2 ≤ n
    → receive (pb_start ∷ zeros j) (init (suc n))
      ≡ record { read_index = 0; write_index = suc j; size = suc n; buffer = pb_start ∷ zeros n }
unfolding init
receive-init j n h k =
    let counted : 0 + suc (length (zeros j)) ≡ suc j =
      omega (arith, length-replicate {A = ℕ} j 0) in
    let within : leb (suc (length (zeros n))) (suc j) ≡ false =
      ground (arith, length-replicate {A = ℕ} n 0) in
    let third : ltb 0 (suc (length (zeros n)) / 3) ≡ true =
      ground (arith, length-replicate {A = ℕ} n 0) in
    receive_cases (init (suc n)) (pb_start ∷ zeros j)
    ∙ rw (splice-zeros j n h) (rw counted (rw within (unfold adjust_buffer in rw third refl)))

-- A read that ends two to four bytes into a packet of fewer than 256 bytes, on a new receive buffer of
-- at least six bytes: `decode` reads the missing bytes of the length from the zeros behind, and looks
-- for the end byte of a packet of length 0, in front of the vector.
pub decode-cut_length :
    (m : TinyPbProtocol) (k size fuel : ℕ) (out : List TinyPbProtocol)
    → packet_length m < 256
    → 2 ≤ k
    → k ≤ 4
    → 6 ≤ size
    → decode (suc fuel) out (receive (take k (packet m [])) (init size)) ≡ fault
decode-cut_length m k size fuel out short low high room =
    let whole : k ≡ suc (k - 1) = omega arith in
    let sized : size ≡ suc (suc (suc (suc (suc (size - 5))))) = omega arith in
    let front = take-packet m (k - 1) short (omega arith) in
    let put = receive-init (k - 1) (suc (suc (suc (suc (size - 5))))) (omega arith) (omega arith) in
    rw whole (
      rw front (
        rw sized (
          rw put (
            decode-zero_length
              (record {
                read_index = 0;
                write_index = suc (k - 1);
                size = suc (suc (suc (suc (suc (size - 5)))));
                buffer = pb_start ∷ zeros (suc (suc (suc (suc (size - 5)))));
              })
              (zeros (size - 5)) fuel out refl (omega arith)
              (record { holds = refl; inside = omega arith })))))
