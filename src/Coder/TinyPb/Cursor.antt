-- ===== src/Coder/TinyPb/Cursor.antt =====
-- Positions in a received vector: what stands there, and what the readers of tinypb_coder.cc find.
use my_rocket.Base.{
  ℕ, zero, suc, ◌+◌, ◌-◌, ◌≤◌, ◌<◌, ◌≡◌, ◌≢◌, refl, ap, List, [], ◌∷◌, ◌++◌, length, drop,
  replicate, All, ℤ, pos, IsInt32, some, get_elem?, ok, arith, length-append, length-drop,
  drop-drop, drop-append, take-append, le→leb, ◌^◌,
}
use my_rocket.Tcp.Buffer.{slice}
use my_rocket.Coder.TinyPb.{read_int32, c_string, copy_field, copy_bytes, end_position}
use my_rocket.Coder.TinyPb.Wire.{be32, word_of-be32}

-- From index `i` on the vector holds `xs`.
pub record At (tmp : List ℕ) (i : ℕ) (xs : List ℕ) : Type 0 where
  pub holds : drop i tmp ≡ xs
  pub inside : i ≤ length tmp

pub At-length : {tmp : List ℕ} {i : ℕ} {xs : List ℕ} → At tmp i xs → i + length xs ≡ length tmp
At-length {tmp} {i} {xs} a =
    let e : length (drop i tmp) ≡ length xs = ap length a.holds in
    omega (arith, length-drop i tmp, a.inside)

pub At-skip :
    {tmp : List ℕ} {i : ℕ} (xs ys : List ℕ) (k : ℕ)
    → k ≡ i + length xs
    → At tmp i (xs ++ ys)
    → At tmp k ys
At-skip {tmp} {i} xs ys k e a = record {
  holds = rw (e, ← drop-drop i (length xs) tmp, a.holds) (drop-append (length xs) xs ys refl);
  inside = omega (arith, At-length a, length-append xs ys);
}

pub get_elem?-drop :
    (tmp : List ℕ) (i x : ℕ) (xs : List ℕ) → drop i tmp ≡ x ∷ xs → get_elem? tmp i ≡ some x
get_elem?-drop [] zero x xs e = cc
get_elem?-drop [] (suc i) x xs e = cc
get_elem?-drop (y ∷ tmp) zero x xs e = cc
get_elem?-drop (y ∷ tmp) (suc i) x xs e = get_elem?-drop tmp i x xs e

pub get_elem?-At :
    {tmp : List ℕ} {i : ℕ} (x : ℕ) (xs : List ℕ) → At tmp i (x ∷ xs) → get_elem? tmp i ≡ some x
get_elem?-At {tmp} {i} x xs a = get_elem?-drop tmp i x xs a.holds

pub read_int32-At :
    {tmp : List ℕ} {i : ℕ} (z : ℤ) (rest : List ℕ)
    → IsInt32 z
    → At tmp i (be32 z ++ rest)
    → read_int32 tmp i ≡ ok z
read_int32-At z rest h a = rw a.holds (word_of-be32 z rest h)

abbrev pub NoZero : List ℕ → Type 0
NoZero = All (λ c. c ≢ 0)

c_string-padded : (s : List ℕ) (n : ℕ) → 0 < n → NoZero s → c_string (s ++ replicate n 0) ≡ ok s
unfolding c_string
c_string-padded [] zero h z = absurd (omega arith)
c_string-padded [] (suc n) h z = refl
c_string-padded (c ∷ s) n h z = ground (arith, c_string-padded s n h z.1)

slice-At :
    {tmp : List ℕ} {i : ℕ} (s rest : List ℕ) → At tmp i (s ++ rest) → slice tmp i (length s) ≡ s
slice-At s rest a = rw a.holds (take-append (length s) s rest refl)

-- A text without zero bytes that is shorter than the array is read back whole.
pub copy_field-At :
    {tmp : List ℕ} {i : ℕ} (cap : ℕ) (s rest : List ℕ)
    → NoZero s
    → length s < cap
    → At tmp i (s ++ rest)
    → copy_field cap tmp i (pos (length s)) ≡ ok (s, length s)
unfolding copy_field
copy_field-At {tmp} {i} cap s rest z h a = rw (
  le→leb (length s) cap (omega arith),
  le→leb (i + length s) (length tmp) (omega (arith, At-length a, length-append s rest)),
  slice-At s rest a,
  c_string-padded s (cap - length s) (omega arith) z,
)

pub copy_bytes-At :
    {tmp : List ℕ} {i : ℕ} (s rest : List ℕ) (n : ℤ)
    → n ≡ pos (length s)
    → At tmp i (s ++ rest)
    → copy_bytes tmp i n ≡ ok s
unfolding copy_bytes
copy_bytes-At {tmp} {i} s rest n e a = rw (
  e,
  copy_bytes,
  le→leb (i + length s) (length tmp) (omega (arith, At-length a, length-append s rest)),
  slice-At s rest a,
)

pub end_position-pos :
    (i n : ℕ) → 0 < n → i + n < 2 ^ 31 → end_position i (pos n) ≡ ok (pos (i + n - 1))
unfolding end_position
end_position-pos i n h k = ground arith
