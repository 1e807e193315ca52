-- ===== src/Common/MsgId/Tests.antt =====
-- Request ids of rocket/common/msg_id_util.cc.
use mathlib.Core.List.{reverse}
use my_rocket.Base.{◌≡◌, ◌+◌, ◌⊎◌, refl, [], ◌∷◌, Text, replicate, ok, fault, IsDigits, arith}
use my_rocket.Common.MsgId.{MsgId, gen_msg_id, value, Nines, gen_msg_id_next, increment, bump}

abbrev counting : MsgId
counting = record { msg_id_no = b'1' ∷ b'9' ∷ []; max_msg_id_no = b'9' ∷ b'9' ∷ [] }

abbrev at_max : MsgId
at_max = record { msg_id_no = replicate 20 b'9'; max_msg_id_no = replicate 20 b'9' }

after_19 : increment (b'1' ∷ b'9' ∷ []) ≡ ok (b'2' ∷ b'0' ∷ [])
unfolding increment bump
after_19 = refl

gen_msg_id_next_example :
    ((id : Text) × (gen_msg_id counting [] ≡ ok (id, record counting { msg_id_no = id }))
      × IsDigits (reverse id)
      × (value id ≡ value counting.msg_id_no + 1))
    ⊎ (Nines (reverse counting.msg_id_no) × (gen_msg_id counting [] ≡ fault))
gen_msg_id_next_example =
    gen_msg_id_next counting [] ((omega arith, omega arith), ((omega arith, omega arith), tt))
      (λ e. cc) (λ e. ground (arith, e))
