-- ===== src/Base/Strings.antt =====
-- `std::string` as its bytes, with what the code uses of it and of `atoi` and `std::to_string`.
use Prim.Native.Nat.{ℕ, zero, suc, ◌+◌, ◌-◌, ◌*◌, ◌/◌, ◌%◌, ◌^◌, ◌<◌, ◌≤◌, min}
use mathlib.Core.Path.{◌≡◌, refl, ap, ◌∙◌}
use mathlib.Core.Logic.{◌↔◌, ◌⊎◌, ◌≢◌, inl, inr}
use mathlib.Core.Bool.{Bool, true, false, ◌&&◌, ◌||◌}
use mathlib.Core.Option.{Option, none, some}
use mathlib.Core.List.{List, [], ◌∷◌, ◌++◌}
use native.Mathlib.Omega.{arith}
use my_rocket.Base.Tests.{ltb, leb, ◌==◌, if◌then◌else◌, Bool-cases, ==_self, ne→==, ==_iff}
use my_rocket.Base.Lists.{length, All}
use my_rocket.Base.Int.{ℤ, pos, negsuc, sub_ℕ, to_u32, to_int32}

abbrev pub Text : Type 0
Text = List ℕ

-- `==` of two strings.
unfoldable pub same : Text → Text → Bool
same [] [] = true
same (a ∷ s) (b ∷ t) = a == b && same s t
same _ _ = false

pub same_iff : (s t : Text) → (same s t ≡ true) ↔ (s ≡ t)
unfolding same
same_iff [] [] = (λ _. refl, λ _. refl)
same_iff [] (b ∷ t) = (λ h. cc, λ h. cc)
same_iff (a ∷ s) [] = (λ h. cc, λ h. cc)
same_iff (a ∷ s) (b ∷ t) = (λ h. ground (arith, same_iff s t), λ h. ground (arith, same_iff s t))

pub same_self : (s : Text) → same s s ≡ true
same_self s = (same_iff s s).1 refl

-- `find_first_of` one character; `none` is `npos`.
unfoldable pub find_first_of : ℕ → Text → Option ℕ
find_first_of c [] = none
find_first_of c (x ∷ s) =
    if x == c then some 0 else elim (find_first_of c s) [ none ↦ none | some i ↦ some (suc i) ]

abbrev pub Without : ℕ → Text → Type 0
Without c = All (λ x. x ≢ c)

pub find_first_of-append :
    (c : ℕ) (s t : Text) → Without c s → find_first_of c (s ++ c ∷ t) ≡ some (length s)
unfolding find_first_of
find_first_of-append c [] t h = rw (==_self c) refl
find_first_of-append c (x ∷ s) t h = rw (ne→== x c h.0, find_first_of-append c s t h.1) refl

pub find_first_of-none : (c : ℕ) (s : Text) → Without c s → find_first_of c s ≡ none
unfolding find_first_of
find_first_of-none c [] h = refl
find_first_of-none c (x ∷ s) h = rw (ne→== x c h.0, find_first_of-none c s h.1) refl

-- The first `c` splits the text.
pub find_first_of_cases :
    (c : ℕ) (s : Text)
    → ((find_first_of c s ≡ none) × Without c s)
      ⊎ ((a : Text) × (b : Text) × (s ≡ a ++ c ∷ b)
          × Without c a
          × (find_first_of c s ≡ some (length a)))
find_first_of_cases c [] = inl (unfold find_first_of in refl, tt)
find_first_of_cases c (x ∷ s) = elim (Bool-cases (x == c)) [
  | inl e ↦
      let here : x ≡ c = (==_iff x c).0 e in
      inr ([], s, ap (λ y. y ∷ s) here, tt, unfold find_first_of in rw e refl)
  | inr e ↦ elim (find_first_of_cases c s) [
    | inl (f, w) ↦ inl (unfold find_first_of in rw (e, f) refl, ((λ h. ground arith), w))
    | inr (a, b, q, w, f) ↦
        inr
          (x ∷ a, b, ap (◌∷◌ x) q, ((λ h. ground arith), w), unfold find_first_of in rw (e, f) refl)
  ]
]

-- `std::to_string` of a natural number: a digit for each round, and `n + 1` rounds are enough.
unfoldable pub digits_before : ℕ → ℕ → Text → Text
digits_before zero n acc = acc
digits_before (suc fuel) n acc =
    let acc' : Text = (b'0' + n % 10) ∷ acc in
    let rest = digits_before fuel (n / 10) acc' in if ltb n 10 then acc' else rest

unfoldable pub decimal : ℕ → Text
decimal n = digits_before (suc n) n []

-- `isspace` in the C locale.
unfoldable pub is_space : ℕ → Bool
is_space c = c == b' ' || (leb 9 c && leb c 13)

abbrev pub is_digit : ℕ → Bool
is_digit c = leb b'0' c && leb c b'9'

unfoldable pub skip_space : Text → Text
skip_space [] = []
skip_space (c ∷ s) = if is_space c then skip_space s else c ∷ s

unfoldable pub read_digits : ℕ → Text → ℕ
read_digits acc [] = acc
read_digits acc (c ∷ s) =
    let rest = read_digits (acc * 10 + (c - b'0')) s in if is_digit c then rest else acc

unfoldable pub signed : Text → ℤ
signed [] = pos 0
signed (c ∷ s) =
    if c == b'-'
    then sub_ℕ 0 (read_digits 0 s)
    else if c == b'+'
    then pos (read_digits 0 s)
    else pos (read_digits 0 (c ∷ s))

-- `strtol`, which stops at the ends of a `long` of 64 bits.
abbrev long_of : ℤ → ℤ
long_of (pos n) = pos (min n (2 ^ 63 - 1))
long_of (negsuc n) = negsuc (min n (2 ^ 63 - 1))

-- `atoi` of glibc: `strtol`, converted to an `int` of 32 bits.
unfoldable pub atoi : Text → ℤ
atoi s = to_int32 (to_u32 (long_of (signed (skip_space s))))

abbrev pub IsDigits : Text → Type 0
IsDigits = All (λ c. (b'0' ≤ c) × (c ≤ b'9'))

read_digits-digits_before :
    (fuel n : ℕ) (acc : Text)
    → n < fuel
    → read_digits 0 (digits_before fuel n acc) ≡ read_digits n acc
unfolding digits_before read_digits
read_digits-digits_before zero n acc h = absurd (omega arith)
read_digits-digits_before (suc fuel) n acc h =
    let d : ℕ = b'0' + n % 10 in
    let back : n / 10 * 10 + (d - b'0') ≡ n = omega arith in
    ground (arith, read_digits-digits_before fuel (n / 10) (d ∷ acc), back)

digits_before-IsDigits :
    (fuel n : ℕ) (acc : Text) → IsDigits acc → IsDigits (digits_before fuel n acc)
unfolding digits_before
digits_before-IsDigits zero n acc h = h
digits_before-IsDigits (suc fuel) n acc h =
    ground (arith, digits_before-IsDigits fuel (n / 10) ((b'0' + n % 10) ∷ acc))

digits_before-ne-nil : (fuel n c : ℕ) (acc : Text) → digits_before fuel n (c ∷ acc) ≢ []
unfolding digits_before
digits_before-ne-nil zero n c acc e = cc
digits_before-ne-nil (suc fuel) n c acc e =
    ground (arith, digits_before-ne-nil fuel (n / 10) (b'0' + n % 10) (c ∷ acc))

signed-IsDigits : (s : Text) → IsDigits s → s ≢ [] → signed (skip_space s) ≡ pos (read_digits 0 s)
unfolding signed skip_space is_space
signed-IsDigits [] h ne = absurd (ne refl)
signed-IsDigits (c ∷ s) h ne = ground arith

pub decimal-IsDigits : (n : ℕ) → IsDigits (decimal n)
unfolding decimal
decimal-IsDigits n = digits_before-IsDigits (suc n) n [] tt

pub decimal-ne-nil : (n : ℕ) → decimal n ≢ []
unfolding decimal digits_before
decimal-ne-nil n e = ground (arith, digits_before-ne-nil n (n / 10) (b'0' + n % 10) [])

to_int32-small : (n : ℕ) → n < 2 ^ 31 → to_int32 (to_u32 (long_of (pos n))) ≡ pos n
to_int32-small n h = ground arith

-- `atoi` reads back what `std::to_string` wrote of an `int`.
pub atoi-decimal : (n : ℕ) → n < 2 ^ 31 → atoi (decimal n) ≡ pos n
unfolding atoi
atoi-decimal n h =
    let read : signed (skip_space (decimal n)) ≡ pos n =
      signed-IsDigits (decimal n) (decimal-IsDigits n) (decimal-ne-nil n)
      ∙ ap pos (
          unfold decimal in
          (read_digits-digits_before (suc n) n [] (omega arith) ∙ (unfold read_digits in refl))) in
    rw read (to_int32-small n h)
