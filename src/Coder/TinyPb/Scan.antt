-- ===== src/Coder/TinyPb/Scan.antt =====
-- What the scan of `decode` of tinypb_coder.cc passes over.
use my_rocket.Base.{
  ℕ, zero, suc, ◌+◌, ◌≤◌, ◌≡◌, ◌≢◌, refl, List, [], ◌∷◌, ◌++◌, length, All, pos, arith, drop, inl,
  inr, ne→==,
}
use my_rocket.Tcp.Buffer.{TcpBuffer, read_able, move_read_index}
use my_rocket.Tcp.Buffer.Invariant.{move_read_index-IsValid, move_read_index_room}
use my_rocket.Tcp.Buffer.Contents.{contents, move_read_index_lem}
use my_rocket.Coder.TinyPb.{pb_start, scan}
use my_rocket.Coder.TinyPb.Cursor.{At, At-skip, get_elem?-At}
use my_rocket.Coder.TinyPb.RoundTrip.{IsOpen}

-- Moving over `n` readable bytes of a receive buffer with free room drops them.
pub move_read_index-IsOpen :
    (b : TcpBuffer) (n : ℕ)
    → IsOpen b
    → n ≤ read_able b
    → IsOpen (move_read_index b (pos n))
      × (contents (move_read_index b (pos n)) ≡ drop n (contents b))
move_read_index-IsOpen b n o h =
    let (size, index) = move_read_index_room b (pos n) o.valid (omega arith) in
    (
      record {
        valid = move_read_index-IsValid b (pos n) o.valid (omega arith);
        room = omega (arith, o.room);
        small = omega (arith, o.small);
      },
      elim (move_read_index_lem b n o.valid h) [
        | inl (_, left) ↦ left
        | inr (full, _) ↦ absurd (omega (arith, o.room, o.valid.ordered))
      ],
    )

abbrev pub NoStart : List ℕ → Type 0
NoStart = All (λ c. c ≢ pb_start)

-- Bytes other than the start byte are passed over.
pub scan-NoStart :
    (g xs tmp : List ℕ) (w k rounds i j : ℕ)
    → NoStart g
    → At tmp i (g ++ xs)
    → k ≡ length g + rounds
    → j ≡ i + length g
    → scan tmp w k i ≡ scan tmp w rounds j
unfolding scan
scan-NoStart [] xs tmp w k rounds i j s a h e =
    let same : k ≡ rounds = omega arith in let here : j ≡ i = omega arith in rw (same, here)
scan-NoStart (c ∷ g) xs tmp w zero rounds i j s a h e = absurd (omega arith)
scan-NoStart (c ∷ g) xs tmp w (suc k) rounds i j s a h e =
    rw (get_elem?-At c (g ++ xs) a, ne→== c pb_start s.0)
      (scan-NoStart g xs tmp w k rounds (i + 1) j s.1 (At-skip (c ∷ []) _ (i + 1) refl a)
        (omega arith) (omega arith))
