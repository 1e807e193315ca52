-- ===== src/Coder/TinyPb/Parse.antt =====
-- Reading one packet back: `decode` of tinypb_coder.cc on the bytes that `encodeTinyPB` lays out.
use my_rocket.Base.{
  ℕ, suc, ◌+◌, ◌<◌, ◌≡◌, refl, List, [], ◌∷◌, ◌++◌, length, pos, IsInt32, some, ok, arith,
  length-append, lt→ltb, ◌-ℤ◌, ◌^◌, append_assoc, true, length-append,
}
use my_rocket.Coder.TinyPb.{
  TinyPbProtocol, empty_protocol, pb_start, pb_end, packet_length, id_or_default, encode_tiny_pb,
  parse_error_part, parse_method_part, parse_packet,
}
use my_rocket.Coder.TinyPb.Wire.{be32}
use my_rocket.Coder.TinyPb.Cursor.{At, At-skip, read_int32-At, copy_field-At, copy_bytes-At, NoZero}

-- What a message must meet to be read back: its texts fit the arrays of the decoder and hold no
-- zero byte, and its error code is an `int32_t`.
pub record IsSendable (m : TinyPbProtocol) : Type 0 where
  pub id_fits : length m.msg_id < 100
  pub id_text : NoZero m.msg_id
  pub name_fits : length m.method_name < 512
  pub name_text : NoZero m.method_name
  pub info_fits : length m.err_info < 512
  pub info_text : NoZero m.err_info
  pub code : IsInt32 m.err_code
  pub short : packet_length m < 2 ^ 31

-- The packet of a message, part by part, with the bytes `post` behind it.
abbrev pub info_part : TinyPbProtocol → List ℕ → List ℕ
info_part m post =
    be32 (pos (length m.err_info))
    ++ (m.err_info ++ (m.pb_data ++ (be32 (pos 1) ++ (pb_end ∷ post))))

abbrev pub error_part : TinyPbProtocol → List ℕ → List ℕ
error_part m post = be32 m.err_code ++ info_part m post

abbrev pub method_part : TinyPbProtocol → List ℕ → List ℕ
method_part m post = be32 (pos (length m.method_name)) ++ (m.method_name ++ error_part m post)

abbrev pub id_part : TinyPbProtocol → List ℕ → List ℕ
id_part m post = be32 (pos (length m.msg_id)) ++ (m.msg_id ++ method_part m post)

abbrev pub packet : TinyPbProtocol → List ℕ → List ℕ
packet m post = pb_start ∷ (be32 (pos (packet_length m)) ++ id_part m post)

-- The message as `encodeTinyPB` leaves it, and as the decoder builds it.
abbrev pub stamped : TinyPbProtocol → TinyPbProtocol
stamped m = record m {
  pk_len = pos (packet_length m);
  msg_id_len = pos (length m.msg_id);
  method_name_len = pos (length m.method_name);
  err_info_len = pos (length m.err_info);
  parse_success = true;
}

abbrev pub unchecked : TinyPbProtocol → TinyPbProtocol
unchecked m = record m { check_sum = pos 0 }

abbrev pub received : TinyPbProtocol → TinyPbProtocol
received m = unchecked (stamped m)

abbrev pub named : TinyPbProtocol → TinyPbProtocol
named m = record m { msg_id = id_or_default m.msg_id }

pub packet-append : (m : TinyPbProtocol) (xs ys : List ℕ) → packet m xs ++ ys ≡ packet m (xs ++ ys)
packet-append m xs ys = simp append_assoc

pub length-packet :
    (m : TinyPbProtocol) (post : List ℕ) → length (packet m post) ≡ packet_length m + length post
length-packet m post = simp length-append (omega arith)

pub encode_tiny_pb_lem :
    (m : TinyPbProtocol) → encode_tiny_pb m ≡ (packet (named m) [], stamped (named m))
unfolding encode_tiny_pb
encode_tiny_pb_lem m = refl

short_int : (n : ℕ) → n < 2 ^ 31 → IsInt32 (pos n)
short_int n h = (h, omega arith)

module _ (m : TinyPbProtocol) (s : IsSendable m) (tmp post : List ℕ) where
  parse_error_part-At :
      (i e : ℕ) (o : TinyPbProtocol)
      → At tmp i (error_part m post)
      → e ≡ i + 8 + length m.err_info + length m.pb_data + 4
      → parse_error_part tmp i e (pos (26 + length m.err_info + length m.pb_data)) o
        ≡ ok (
            some (record o {
              err_code = m.err_code;
              err_info_len = pos (length m.err_info);
              err_info = m.err_info;
              pb_data = m.pb_data;
              parse_success = true;
            }))
  unfolding parse_error_part
  parse_error_part-At i e o a h =
      let a4 : At tmp (i + 4) (info_part m post) = At-skip (be32 m.err_code) _ (i + 4) refl a in
      let a8 = At-skip (be32 (pos (length m.err_info))) _ (i + 8) (omega arith) a4 in
      let ab = At-skip m.err_info _ (i + 8 + length m.err_info) refl a8 in
      let left : pos (26 + length m.err_info + length m.pb_data)
            -ℤ pos (length m.err_info)
            -ℤ pos 2
            -ℤ pos 24
          ≡ pos (length m.pb_data) =
        ground arith in
      rw (
        lt→ltb i e (omega arith),
        read_int32-At m.err_code _ s.code a,
        lt→ltb (i + 4) e (omega arith),
        read_int32-At (pos (length m.err_info)) _ (omega (arith, s.info_fits)) a4,
        copy_field-At 512 m.err_info _ s.info_text s.info_fits a8,
        copy_bytes-At m.pb_data _ _ left ab,
      )

  parse_method_part-At :
      (i e : ℕ) (o : TinyPbProtocol)
      → At tmp i (method_part m post)
      → e ≡ i + 12 + length m.method_name + length m.err_info + length m.pb_data + 4
      → parse_method_part tmp i e
          (pos (26 + length m.method_name + length m.err_info + length m.pb_data))
          o
        ≡ ok (
            some (record o {
              method_name_len = pos (length m.method_name);
              method_name = m.method_name;
              err_code = m.err_code;
              err_info_len = pos (length m.err_info);
              err_info = m.err_info;
              pb_data = m.pb_data;
              parse_success = true;
            }))
  unfolding parse_method_part
  parse_method_part-At i e o a h =
      let a4 = At-skip (be32 (pos (length m.method_name))) _ (i + 4) (omega arith) a in
      let ab = At-skip m.method_name _ (i + 4 + length m.method_name) refl a4 in
      let left : pos (26 + length m.method_name + length m.err_info + length m.pb_data)
            -ℤ pos (length m.method_name)
          ≡ pos (26 + length m.err_info + length m.pb_data) =
        ground arith in
      rw (
        lt→ltb i e (omega arith),
        read_int32-At (pos (length m.method_name)) _ (omega (arith, s.name_fits)) a,
        copy_field-At 512 m.method_name _ s.name_text s.name_fits a4,
        left,
        parse_error_part-At (i + 4 + length m.method_name) e
            (record o { method_name_len = pos (length m.method_name); method_name = m.method_name })
            ab (omega arith),
      )

  -- A packet that stands at `i` is parsed into the message that was sent.
  pub parse_packet-At :
      (i e : ℕ)
      → At tmp i (packet m post)
      → i + packet_length m ≡ suc e
      → parse_packet tmp i e (pos (packet_length m)) ≡ ok (some (received m))
  unfolding parse_packet
  parse_packet-At i e a h =
      let a5 = At-skip (pb_start ∷ be32 (pos (packet_length m))) _ (i + 5) (omega arith) a in
      let a9 = At-skip (be32 (pos (length m.msg_id))) _ (i + 5 + 4) (omega arith) a5 in
      let ab = At-skip m.msg_id _ (i + 5 + 4 + length m.msg_id) refl a9 in
      let left : pos (packet_length m) -ℤ pos (length m.msg_id)
          ≡ pos (26 + length m.method_name + length m.err_info + length m.pb_data) =
        ground arith in
      rw (
        lt→ltb (i + 5) e (omega arith),
        read_int32-At (pos (length m.msg_id)) _ (omega (arith, s.id_fits)) a5,
        copy_field-At 100 m.msg_id _ s.id_text s.id_fits a9,
        left,
        parse_method_part-At (i + 5 + 4 + length m.msg_id) e
            (record empty_protocol {
              pk_len = pos (packet_length m);
              msg_id_len = pos (length m.msg_id);
              msg_id = m.msg_id;
            })
            ab (omega arith),
      )
