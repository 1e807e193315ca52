-- ===== src/Coder/TinyPb.antt =====
-- rocket/net/coder/tinypb_protocol.h, tinypb_protocol.cc and tinypb_coder.cc. Every access to the
-- received bytes is checked: one outside the vector, outside a local array or of negative length is
-- `fault`. Positions are exact as long as the buffer is shorter than 2^31 bytes.
pub mod Wire
pub mod Cursor
pub mod Parse
pub mod RoundTrip
pub mod Scan
pub mod Hostile
pub mod Partial
mod Tests
use my_rocket.Base.{
  ℕ, zero, suc, ◌+◌, ◌-◌, ◌^◌, Bool, true, false, ◌&&◌, List, [], ◌∷◌, ◌++◌, length, take, drop,
  replicate, ltb, leb, ◌==◌, if◌then◌else◌, ℤ, pos, negsuc, ◌+ℤ◌, ◌-ℤ◌, pos_part, Option, none,
  some, get_elem?, Outcome, ok, fault, stuck, ◌>>=◌, or_fault,
}
use my_rocket.Tcp.Buffer.{TcpBuffer, slice, move_read_index, write_to_buffer}
use Wire.{be32, word_of}

abbrev pub pb_start : ℕ
pb_start = 2

abbrev pub pb_end : ℕ
pb_end = 3

-- The fields of `TinyPBProtocol`, and `m_msg_id` of its base.
pub record TinyPbProtocol : Type 0 where
  pub msg_id : List ℕ
  pub pk_len : ℤ
  pub msg_id_len : ℤ
  pub method_name_len : ℤ
  pub method_name : List ℕ
  pub err_code : ℤ
  pub err_info_len : ℤ
  pub err_info : List ℕ
  pub pb_data : List ℕ
  pub check_sum : ℤ
  pub parse_success : Bool

abbrev pub empty_protocol : TinyPbProtocol
empty_protocol = record {
  msg_id = [];
  pk_len = pos 0;
  msg_id_len = pos 0;
  method_name_len = pos 0;
  method_name = [];
  err_code = pos 0;
  err_info_len = pos 0;
  err_info = [];
  pb_data = [];
  check_sum = pos 0;
  parse_success = false;
}

-- "123456789"
abbrev pub default_msg_id : List ℕ
default_msg_id = b'1' ∷ b'2' ∷ b'3' ∷ b'4' ∷ b'5' ∷ b'6' ∷ b'7' ∷ b'8' ∷ b'9' ∷ []

abbrev pub id_or_default : List ℕ → List ℕ
id_or_default [] = default_msg_id
id_or_default (c ∷ cs) = c ∷ cs

abbrev pub packet_length : TinyPbProtocol → ℕ
packet_length m =
    2 + 24 + length m.msg_id + length m.method_name + length m.err_info + length m.pb_data

-- The bytes, and the message with the lengths filled in. The `memcpy` of an empty text is skipped,
-- which writes the same bytes.
unfoldable pub encode_tiny_pb : TinyPbProtocol → List ℕ × TinyPbProtocol
encode_tiny_pb m =
    let m' = record m { msg_id = id_or_default m.msg_id } in
    let pk_len = packet_length m' in
    (
      pb_start
          ∷ (be32 (pos pk_len)
              ++ (be32 (pos (length m'.msg_id))
                  ++ (m'.msg_id
                      ++ (be32 (pos (length m'.method_name))
                          ++ (m'.method_name
                              ++ (be32 m'.err_code
                                  ++ (be32 (pos (length m'.err_info))
                                      ++ (m'.err_info
                                          ++ (m'.pb_data ++ (be32 (pos 1) ++ pb_end ∷ [])))))))))),
      record m' {
        pk_len = pos pk_len;
        msg_id_len = pos (length m'.msg_id);
        method_name_len = pos (length m'.method_name);
        err_info_len = pos (length m'.err_info);
        parse_success = true;
      },
    )

-- Each message is written to the buffer, and is left with its lengths.
unfoldable pub encode : List TinyPbProtocol → TcpBuffer → List TinyPbProtocol × TcpBuffer
encode [] out = ([], out)
encode (m ∷ ms) out =
    let (bytes, m') = encode_tiny_pb m in
    let (ms', out') = encode ms (write_to_buffer out bytes) in (m' ∷ ms', out')

-- `getInt32FromNetByte(&tmp[i])`
abbrev pub read_int32 : List ℕ → ℕ → Outcome ℤ
read_int32 tmp i = word_of (drop i tmp)

-- `i + pk_len - 1`, which must be an `int`.
unfoldable pub end_position : ℕ → ℤ → Outcome ℤ
end_position i pk_len =
    if ltb (i + pos_part pk_len) (2 ^ 31) then ok (pos i +ℤ pk_len -ℤ pos 1) else fault

-- The loop over `[i, i + rounds)`, `w` the write index: the first start byte whose length leads to
-- an end byte, as start, end and length.
unfoldable pub scan : List ℕ → ℕ → ℕ → ℕ → Outcome (Option (ℕ × ℕ × ℤ))
scan tmp w zero i = ok none
scan tmp w (suc rounds) i =
    let rest = scan tmp w rounds (i + 1) in
    or_fault (get_elem? tmp i) >>= λ c.
    if c == pb_start && ltb (i + 1) w
    then (read_int32 tmp (i + 1) >>= λ pk_len. end_position i pk_len >>= λ j. elim j [
      | negsuc _ ↦ fault
      | pos k ↦
          if leb w k
          then rest
          else (or_fault (get_elem? tmp k) >>= λ d.
              if d == pb_end then ok (some (i, k, pk_len)) else rest)
    ])
    else rest

-- `std::string` of a zero-terminated array.
unfoldable pub c_string : List ℕ → Outcome (List ℕ)
c_string [] = fault
c_string (c ∷ cs) = let rest = c_string cs in if c == 0 then ok [] else (rest >>= λ s. ok (c ∷ s))

-- `memcpy` of `len` bytes from `tmp[i]` into a zeroed array of `cap` bytes, read as a string. With
-- the string comes the length, now known not to be negative.
unfoldable pub copy_field : ℕ → List ℕ → ℕ → ℤ → Outcome (List ℕ × ℕ)
copy_field cap tmp i len = elim len [
  | negsuc _ ↦ fault
  | pos n ↦
      if leb n cap && leb (i + n) (length tmp)
      then (c_string (slice tmp i n ++ replicate (cap - n) 0) >>= λ s. ok (s, n))
      else fault
]

-- `std::string(&tmp[i], len)`
unfoldable pub copy_bytes : List ℕ → ℕ → ℤ → Outcome (List ℕ)
copy_bytes tmp i len = elim len [
  | negsuc _ ↦ fault
  | pos n ↦ if leb (i + n) (length tmp) then ok (slice tmp i n) else fault
]

-- The rest of a packet once its method name is known, from the error code at `i` on. `none` is a
-- parse error, which `decode` logs and skips.
unfoldable pub parse_error_part :
    List ℕ → ℕ → ℕ → ℤ → TinyPbProtocol → Outcome (Option TinyPbProtocol)
parse_error_part tmp i end_index sizes m =
    if ltb i end_index
    then (read_int32 tmp i >>= λ err_code.
        if ltb (i + 4) end_index
        then (read_int32 tmp (i + 4) >>= λ err_info_len.
            copy_field 512 tmp (i + 8) err_info_len >>= λ info.
            copy_bytes tmp (i + 8 + info.1) (sizes -ℤ pos info.1 -ℤ pos 2 -ℤ pos 24) >>= λ pb_data.
            ok (
              some (record m {
                err_code = err_code;
                err_info_len = err_info_len;
                err_info = info.0;
                pb_data = pb_data;
                parse_success = true;
              })))
        else ok none)
    else ok none

unfoldable pub parse_method_part :
    List ℕ → ℕ → ℕ → ℤ → TinyPbProtocol → Outcome (Option TinyPbProtocol)
parse_method_part tmp i end_index sizes m =
    if ltb i end_index
    then (read_int32 tmp i >>= λ method_name_len.
        copy_field 512 tmp (i + 4) method_name_len >>= λ name.
        parse_error_part tmp (i + 4 + name.1) end_index (sizes -ℤ pos name.1)
          (record m { method_name_len = method_name_len; method_name = name.0 }))
    else ok none

-- `sizes` is what is left of `m_pk_len` for the parts that follow.
unfoldable pub parse_packet : List ℕ → ℕ → ℕ → ℤ → Outcome (Option TinyPbProtocol)
parse_packet tmp start_index end_index pk_len =
    let i = start_index + 5 in
    if ltb i end_index
    then (read_int32 tmp i >>= λ msg_id_len. copy_field 100 tmp (i + 4) msg_id_len >>= λ id.
        parse_method_part tmp (i + 4 + id.1) end_index (pk_len -ℤ pos id.1)
          (record empty_protocol { pk_len = pk_len; msg_id_len = msg_id_len; msg_id = id.0 }))
    else ok none

abbrev pub push : List TinyPbProtocol → Option TinyPbProtocol → List TinyPbProtocol
push out none = out
push out (some m) = out ++ m ∷ []

abbrev pub find_packet : TcpBuffer → Outcome (Option (ℕ × ℕ × ℤ))
find_packet b = scan b.buffer b.write_index (b.write_index - b.read_index) b.read_index

-- The read index moves by the packet's length, from where it stands.
abbrev pub skip_packet : TcpBuffer → ℕ → ℕ → TcpBuffer
skip_packet b s e = move_read_index b (pos e -ℤ pos s +ℤ pos 1)

-- One round of `while(1)` for each unit of fuel.
unfoldable pub decode :
    ℕ → List TinyPbProtocol → TcpBuffer → Outcome (List TinyPbProtocol × TcpBuffer)
decode zero out b = stuck
decode (suc fuel) out b = find_packet b >>= λ found. elim found [
  | none ↦ ok (out, b)
  | some (s, e, pk_len) ↦
      parse_packet b.buffer s e pk_len >>= λ m. decode fuel (push out m) (skip_packet b s e)
]
