-- ===== src/Coder/TinyPb/Wire.antt =====
-- `htonl` and `getInt32FromNetByte` (rocket/common/util.cc): an `int32_t` as four bytes, the
-- highest first.
use my_rocket.Base.{
  ℕ, ◌+◌, ◌*◌, ◌/◌, ◌%◌, ◌^◌, ◌<◌, ◌≡◌, refl, List, [], ◌∷◌, ◌++◌, ℤ, to_u32, to_int32, IsInt32,
  to_int32-to_u32, to_u32-lt, Outcome, ok, fault, arith,
}

abbrev pub be32 : ℤ → List ℕ
be32 z =
    (to_u32 z / 2 ^ 24)
    ∷ (to_u32 z / 2 ^ 16 % 256)
    ∷ (to_u32 z / 2 ^ 8 % 256)
    ∷ (to_u32 z % 256)
    ∷ []

-- The integer at the front of the bytes.
abbrev pub word_of : List ℕ → Outcome ℤ
word_of (a ∷ b ∷ c ∷ d ∷ _) = ok (to_int32 (((a * 256 + b) * 256 + c) * 256 + d))
word_of _ = fault

digits :
    (v : ℕ)
    → v < 2 ^ 32
    → ((v / 2 ^ 24 * 256 + v / 2 ^ 16 % 256) * 256 + v / 2 ^ 8 % 256) * 256 + v % 256 ≡ v
digits v h = omega arith

-- Every `int32_t` is read back from its four bytes, whatever follows them.
pub word_of-be32 : (z : ℤ) (rest : List ℕ) → IsInt32 z → word_of (be32 z ++ rest) ≡ ok z
word_of-be32 z rest h = rw (digits (to_u32 z) (to_u32-lt z), to_int32-to_u32 z h) refl
