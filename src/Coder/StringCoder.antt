-- ===== src/Coder/StringCoder.antt =====
-- rocket/net/coder/string_coder.h.
mod Tests
use my_rocket.Base.{
  ◌≡◌, refl, sym, ap, ◌∙◌, List, [], ◌∷◌, ◌++◌, arith, append-nil, append_assoc, Text, take_all,
  drop_all,
}
use my_rocket.Tcp.Buffer.{TcpBuffer, read_able, write_to_buffer, read_from_buffer}
use my_rocket.Tcp.Buffer.Invariant.{IsValid, write_to_buffer-IsValid}
use my_rocket.Tcp.Buffer.Contents.{
  contents, length-contents, contents-write_to_buffer, read_from_buffer_lem,
}
use my_rocket.Rpc.Dispatcher.{codes}

pub record StringProtocol : Type 0 where
  pub msg_id : Text
  pub info : Text

unfoldable pub encode : List StringProtocol → TcpBuffer → TcpBuffer
encode [] b = b
encode (m ∷ ms) b = encode ms (write_to_buffer b m.info)

-- Everything that is readable becomes one message.
unfoldable pub decode : TcpBuffer → List StringProtocol × TcpBuffer
decode b =
    let (re, b') = read_from_buffer b (read_able b) in
    (record { msg_id = codes "123456"; info = re } ∷ [], b')

unfoldable pub infos : List StringProtocol → Text
infos [] = []
infos (m ∷ ms) = m.info ++ infos ms

encode_lem :
    (ms : List StringProtocol) (b : TcpBuffer)
    → IsValid b
    → (contents (encode ms b) ≡ contents b ++ infos ms) × IsValid (encode ms b)
unfolding encode infos
encode_lem [] b v = (sym (append-nil (contents b)), v)
encode_lem (m ∷ ms) b v =
    let (wire, valid) =
      encode_lem ms (write_to_buffer b m.info) (write_to_buffer-IsValid b m.info v) in
    (wire ∙ rw (contents-write_to_buffer b m.info v, append_assoc) refl, valid)

-- This coder keeps the bytes and forgets the messages: whatever is encoded into an empty buffer is
-- decoded as one message with all the texts, one after the other, and the id 123456; nothing is left.
pub decode-encode_all :
    (ms : List StringProtocol) (b : TcpBuffer)
    → IsValid b
    → contents b ≡ []
    → ((decode (encode ms b)).0 ≡ record { msg_id = codes "123456"; info = infos ms } ∷ [])
      × (contents (decode (encode ms b)).1 ≡ [])
unfolding decode
decode-encode_all ms b v empty =
    let (wire, valid) = encode_lem ms b v in
    let b' = encode ms b in
    let (out, left) = read_from_buffer_lem b' (read_able b') valid in
    let size = length-contents b' valid in
    let whole : contents b' ≡ infos ms = wire ∙ rw empty refl in
    (
      ap (λ t. record { msg_id = codes "123456"; info = t } ∷ [])
          (out ∙ (take_all (read_able b') (contents b') (omega (arith, size)) ∙ whole)),
      left ∙ drop_all (read_able b') (contents b') (omega (arith, size)),
    )
