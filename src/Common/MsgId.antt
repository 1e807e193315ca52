-- ===== src/Common/MsgId.antt =====
-- rocket/common/msg_id_util.cc: the request ids of one thread, texts of 20 digits that count up.
-- `random` is what `read` of /dev/urandom gives; any number of bytes but 20 is an error.
mod Tests
use mathlib.Core.List.{reverse, reverse-reverse}
use my_rocket.Base.{
  ℕ, suc, ◌+◌, ◌-◌, ◌*◌, ◌%◌, ◌≤◌, ◌<◌, ◌≡◌, ◌≢◌, refl, sym, ap, ◌∙◌, ◌⊎◌, inl, inr, Bool, true,
  false, ◌||◌, List, [], ◌∷◌, ◌++◌, map, length, replicate, All, ◌==◌, if◌then◌else◌, Text, same,
  same_iff, IsDigits, Outcome, ok, fault, stuck, ◌>>=◌, arith, Bool-cases, ne→==, ==_iff,
  length-map, length-append,
}

-- `t_msg_id_no` and `t_max_msg_id_no`.
pub record MsgId : Type 0 where
  pub msg_id_no : Text
  pub max_msg_id_no : Text

abbrev pub msg_id_length : ℕ
msg_id_length = 20

abbrev pub is_empty : Text → Bool
is_empty [] = true
is_empty (c ∷ s) = false

-- The search for a digit other than 9, from the last character on: the text is given in reverse.
-- The loop's test `i >= 0` always holds for a `size_t`, so it runs past the front of a text of nines.
unfoldable pub bump : Text → Outcome Text
bump [] = fault
bump (c ∷ s) =
    let rest = bump s in if c == b'9' then (rest >>= λ s'. ok (b'0' ∷ s')) else ok ((c + 1) ∷ s)

unfoldable pub increment : Text → Outcome Text
increment s = bump (reverse s) >>= λ t. ok (reverse t)

-- The id and the thread's state. Each reset adds 20 nines to the maximum.
unfoldable pub gen_msg_id : MsgId → List ℕ → Outcome (Text × MsgId)
gen_msg_id st random =
    if is_empty st.msg_id_no || same st.msg_id_no st.max_msg_id_no
    then (if length random == msg_id_length
        then (let id = map (λ b. b % 10 + b'0') random in
            ok (
              id,
              record {
                msg_id_no = id;
                max_msg_id_no = st.max_msg_id_no ++ replicate msg_id_length b'9';
              },
            ))
        else ok ([], st))
    else (increment st.msg_id_no >>= λ id. ok (id, record st { msg_id_no = id }))

-- The number that a text of digits stands for, its last digit the lowest.
unfoldable pub low_first : Text → ℕ
low_first [] = 0
low_first (c ∷ s) = c - b'0' + 10 * low_first s

abbrev pub value : Text → ℕ
value s = low_first (reverse s)

abbrev pub Nines : Text → Type 0
Nines = All (λ c. c ≡ b'9')

bump_lem :
    (s : Text)
    → IsDigits s
    → ((t : Text) × (bump s ≡ ok t) × IsDigits t × (low_first t ≡ low_first s + 1))
      ⊎ (Nines s × (bump s ≡ fault))
unfolding bump low_first
bump_lem [] h = inr (tt, refl)
bump_lem (c ∷ s) h = elim (Bool-cases (c == b'9')) [
  | inl e ↦ elim (bump_lem s h.1) [
    | inl (t, b, d, v) ↦
        inl (b'0' ∷ t, rw (e, b) refl, ((omega arith, omega arith), d), ground arith)
    | inr (n, b) ↦ inr (((==_iff c b'9').0 e, n), rw (e, b) refl)
  ]
  | inr e ↦ inl ((c + 1) ∷ s, rw e refl, (ground arith, h.1), ground arith)
]

bump_total : (s : Text) → ((t : Text) × (bump s ≡ ok t)) ⊎ (bump s ≡ fault)
unfolding bump
bump_total [] = inr refl
bump_total (c ∷ s) = elim (Bool-cases (c == b'9')) [
  | inl e ↦ elim (bump_total s) [
    | inl (t, b) ↦ inl (b'0' ∷ t, rw (e, b) refl)
    | inr b ↦ inr (rw (e, b) refl)
  ]
  | inr e ↦ inl ((c + 1) ∷ s, rw e refl)
]

-- The call gives an id or indexes out of range.
pub gen_msg_id_total :
    (st : MsgId) (random : List ℕ)
    → ((r : Text × MsgId) × (gen_msg_id st random ≡ ok r)) ⊎ (gen_msg_id st random ≡ fault)
unfolding gen_msg_id increment
gen_msg_id_total st random =
    elim (Bool-cases (is_empty st.msg_id_no || same st.msg_id_no st.max_msg_id_no)) [
      | inl e ↦ elim (Bool-cases (length random == msg_id_length)) [
        | inl f ↦
            let id = map (λ b. b % 10 + b'0') random in
            let next : MsgId = record {
              msg_id_no = id;
              max_msg_id_no = st.max_msg_id_no ++ replicate msg_id_length b'9';
            } in
            inl ((id, next), rw (e, f) refl)
        | inr f ↦ inl (([], st), rw (e, f) refl)
      ]
      | inr e ↦ elim (bump_total (reverse st.msg_id_no)) [
        | inl (t, b) ↦ inl ((reverse t, record st { msg_id_no = reverse t }), rw (e, b) refl)
        | inr b ↦ inr (rw (e, b) refl)
      ]
    ]

bump-Nines : (s : Text) → Nines s → bump s ≡ fault
unfolding bump
bump-Nines [] h = refl
bump-Nines (c ∷ s) h = rw (bump-Nines s h.1) (ground arith)

counting :
    (st : MsgId) (random : List ℕ)
    → st.msg_id_no ≢ []
    → st.msg_id_no ≢ st.max_msg_id_no
    → gen_msg_id st random
      ≡ (increment st.msg_id_no >>= λ id. ok (id, record st { msg_id_no = id }))
unfolding gen_msg_id
counting st random ne other = ground (arith, same_iff st.msg_id_no st.max_msg_id_no)

-- Between resets ids count up: a text of digits that is neither empty nor the maximum is followed by
-- the text of digits for the next number, unless it is all nines; then the call indexes out of range.
pub gen_msg_id_next :
    (st : MsgId) (random : List ℕ)
    → IsDigits (reverse st.msg_id_no)
    → st.msg_id_no ≢ []
    → st.msg_id_no ≢ st.max_msg_id_no
    → ((id : Text) × (gen_msg_id st random ≡ ok (id, record st { msg_id_no = id }))
        × IsDigits (reverse id)
        × (value id ≡ value st.msg_id_no + 1))
      ⊎ (Nines (reverse st.msg_id_no) × (gen_msg_id st random ≡ fault))
gen_msg_id_next st random d ne other = elim (bump_lem (reverse st.msg_id_no) d) [
  | inl (t, b, d', v) ↦ inl (
    reverse t,
    counting st random ne other ∙ (unfold increment in rw b refl),
    rw (reverse-reverse t) d',
    rw (reverse-reverse t) v,
  )
  | inr (n, b) ↦ inr (n, counting st random ne other ∙ (unfold increment in rw b refl))
]

ne_of_length : (s t : Text) → length s ≢ length t → s ≢ t
ne_of_length s t h e = h (ap length e)

-- When the count reaches the first maximum of 20 nines, the next call draws 20 new digits and makes
-- the maximum 40 nines long. So the count is never reset again: once the id is all nines, the call
-- indexes out of range.
pub gen_msg_id_second_reset :
    (st : MsgId) (random : List ℕ)
    → length st.max_msg_id_no ≡ 20
    → st.msg_id_no ≡ st.max_msg_id_no
    → length random ≡ 20
    → (id : Text) × (st' : MsgId) × (gen_msg_id st random ≡ ok (id, st'))
      × (length id ≡ 20)
      × (length st'.max_msg_id_no ≡ 40)
      × ((last : Text) (again : List ℕ)
          → length last ≡ 20
          → Nines (reverse last)
          → gen_msg_id (record st' { msg_id_no = last }) again ≡ fault)
gen_msg_id_second_reset st random size at_max drawn =
    let id = map (λ b. b % 10 + b'0') random in
    let st' : MsgId = record {
      msg_id_no = id;
      max_msg_id_no = st.max_msg_id_no ++ replicate msg_id_length b'9';
    } in
    let long = length-append st.max_msg_id_no (replicate msg_id_length b'9') in
    (
      id,
      st',
      unfold gen_msg_id in ground (arith, same_iff st.msg_id_no st.max_msg_id_no, at_max),
      length-map (λ b. b % 10 + b'0') random ∙ drawn,
      omega (arith, long),
      λ last again len nines.
          counting (record st' { msg_id_no = last }) again
            (λ e. absurd (omega (arith, ap length e)))
            (ne_of_length last st'.max_msg_id_no (omega (arith, long)))
          ∙ (unfold increment in rw (bump-Nines (reverse last) nines) refl),
    )
