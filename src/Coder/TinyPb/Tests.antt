-- ===== src/Coder/TinyPb/Tests.antt =====
-- Runs of the coder.
use my_rocket.Coder.TinyPb.Parse.{IsSendable, packet, named, received, unchecked}
use my_rocket.Coder.TinyPb.RoundTrip.{IsOpen, encode_lem, decode-encode}
use my_rocket.Coder.TinyPb.Hostile.{endless, decode-endless, decode-garbage}
use my_rocket.Tcp.Buffer.Invariant.{IsValid}
use my_rocket.Tcp.Buffer.Contents.{contents}
use my_rocket.Tcp.Buffer.{TcpBuffer, move_read_index}
use my_rocket.Base.{
  ℕ, ◌≡◌, ◌<◌, ◌+◌, ◌-◌, ◌^◌, ◌≢◌, All, replicate, drop, zero, suc, ◌++◌, sym, ◌∙◌, map, length,
  arith, take-append, length-append, refl, List, [], ◌∷◌, ok, pos, stuck,
}
use my_rocket.Coder.TinyPb.{
  pb_start, packet_length, TinyPbProtocol, empty_protocol, encode_tiny_pb, encode, decode,
}

abbrev ping : TinyPbProtocol
ping = record empty_protocol {
  msg_id = b'7' ∷ [];
  method_name = b'a' ∷ b'.' ∷ b'b' ∷ [];
  pb_data = 2 ∷ 0 ∷ 3 ∷ [];
}

encode-ping :
    (encode_tiny_pb ping).0
    ≡ 2 ∷ 0 ∷ 0 ∷ 0 ∷ 33 ∷ 0 ∷ 0 ∷ 0 ∷ 1 ∷ b'7' ∷ 0 ∷ 0 ∷ 0 ∷ 3 ∷ b'a' ∷ b'.' ∷ b'b' ∷ 0 ∷ 0 ∷ 0 ∷ 0
      ∷ 0 ∷ 0 ∷ 0 ∷ 0 ∷ 2 ∷ 0 ∷ 3 ∷ 0 ∷ 0 ∷ 0 ∷ 1 ∷ 3 ∷ []
unfolding encode_tiny_pb
encode-ping = refl

-- A send buffer with nothing to send.
abbrev no_bytes : TcpBuffer
no_bytes = record { read_index = 0; write_index = 0; size = 0; buffer = [] }

no_bytes-IsValid : IsValid no_bytes
no_bytes-IsValid = record { ordered = omega arith; bounded = omega arith }

ping-IsSendable : IsSendable (named ping)
ping-IsSendable = record {
  id_fits = omega arith;
  id_text = ((λ e. omega (arith, e)), tt);
  name_fits = omega arith;
  name_text = ((λ e. omega (arith, e)), ((λ e. omega (arith, e)), ((λ e. omega (arith, e)), tt)));
  info_fits = omega arith;
  info_text = tt;
  code = omega arith;
  short = omega arith;
}

-- A receive buffer that holds `xs` with one byte of room behind them.
abbrev holding : List ℕ → TcpBuffer
holding xs = record {
  read_index = 0;
  write_index = length xs;
  size = length xs + 1;
  buffer = xs ++ 0 ∷ [];
}

contents-holding : (xs : List ℕ) → contents (holding xs) ≡ xs
unfolding contents
contents-holding xs = take-append (length xs - 0) xs (0 ∷ []) (omega arith)

holding-IsOpen : (xs : List ℕ) → length xs < 2 ^ 30 → IsOpen (holding xs)
holding-IsOpen xs h =
    let size = length-append xs (0 ∷ []) in
    record {
      valid = record { ordered = omega arith; bounded = omega (arith, size) };
      room = omega (arith, size);
      small = omega (arith, size);
    }

abbrev ping_bytes : List ℕ
ping_bytes = packet (named ping) []

encoded : ping_bytes ≡ contents (encode (ping ∷ []) no_bytes).1
encoded =
    let (_, wire, _) = encode_lem (ping ∷ []) no_bytes no_bytes-IsValid in
    sym (wire ∙ (unfold contents in refl))

decode-encode_example :
    (b' : TcpBuffer) × (decode 2 [] (holding ping_bytes)
      ≡ ok (map unchecked (encode (ping ∷ []) no_bytes).0, b'))
    × (contents b' ≡ [])
decode-encode_example =
    decode-encode (ping ∷ []) no_bytes (holding ping_bytes) 2 (ping-IsSendable, tt) no_bytes-IsValid
      (unfold contents in refl) (holding-IsOpen ping_bytes (omega arith))
      (contents-holding ping_bytes ∙ encoded) (omega arith)

decode-endless_example : decode 9 [] (holding (endless [])) ≡ stuck
decode-endless_example =
    decode-endless 9 [] (holding (endless [])) [] (holding-IsOpen (endless []) (omega arith))
      (contents-holding (endless []))

-- 33 bytes of garbage, as many as `ping` is long.
abbrev garbage : List ℕ
garbage = replicate 33 9

no_start : (n : ℕ) → All (λ c. c ≢ pb_start) (replicate n 9)
no_start zero = tt
no_start (suc n) = ((λ e. omega (arith, e)), no_start n)

abbrev dirty : TcpBuffer
dirty = holding (garbage ++ ping_bytes)

decode-garbage_example :
    let b' = move_read_index dirty (pos (packet_length (named ping))) in
    (decode 5 [] dirty ≡ decode 4 (received (named ping) ∷ []) b')
    × IsOpen b'
    × (contents b' ≡ drop (packet_length (named ping)) garbage ++ ping_bytes)
decode-garbage_example =
    decode-garbage 4 [] dirty (named ping) garbage []
      (holding-IsOpen (garbage ++ ping_bytes) (omega arith)) ping-IsSendable (no_start 33)
      (omega arith) (contents-holding (garbage ++ ping_bytes))
