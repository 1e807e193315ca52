-- ===== src/Tcp/Buffer/Contents.antt =====
-- A buffer as a queue of bytes: what is readable, and how each operation of tcp_buffer.cc moves it.
use my_rocket.Base.{
  ℕ, Outcome, ok, ◌>>=◌, ◌^◌, true, ◌/◌, ◌+◌, drop-take, drop-append_le, ◌==◌, drop_all, take-take,
  ◌⊎◌, ◌-◌, ◌≤◌, ◌<◌, ◌≡◌, refl, sym, ap, ◌∙◌, min, List, [], ◌∷◌, ◌++◌, length, take, drop,
  replicate, length-append, length-take, length-drop, arith, pos, Bool-cases, inl, inr, ltb,
  append_assoc, take-append, drop-drop, take_all, leb, if◌then◌else◌,
}
use my_rocket.Tcp.Buffer.{
  TcpBuffer, splice, slice, read_able, write_able, resize_buffer, adjust_buffer, grown_size,
  make_room, write_to_buffer, write_int, fits_int, read_from_buffer, move_read_index,
}
use my_rocket.Tcp.Buffer.Invariant.{
  IsValid, length-slice, make_room_room, write_to_buffer-IsValid, read_from_buffer-IsValid,
}

-- The bytes between the read and the write index, oldest first.
unfoldable pub contents : TcpBuffer → List ℕ
contents b = slice b.buffer b.read_index (read_able b)

pub length-contents : (b : TcpBuffer) → IsValid b → length (contents b) ≡ read_able b
unfolding contents
length-contents b v =
    length-slice b.buffer b.read_index (read_able b) (omega (arith, v.ordered, v.bounded))

-- Bytes copied to the front of a vector are read back from there.
slice-front : (buf xs : List ℕ) (n : ℕ) → n ≡ length xs → slice (splice buf 0 xs) 0 n ≡ xs
unfolding splice
slice-front buf xs n h = take-append n xs _ h

pub contents-adjust_buffer : (b : TcpBuffer) → IsValid b → contents (adjust_buffer b) ≡ contents b
unfolding contents adjust_buffer
contents-adjust_buffer b v = elim (Bool-cases (ltb b.read_index (length b.buffer / 3))) [
  | inl e ↦ rw e refl
  | inr e ↦ rw e (
      slice-front (replicate (length b.buffer) 0) (slice b.buffer b.read_index (read_able b))
        (read_able b - 0)
        (omega (arith, length-slice b.buffer b.read_index (read_able b), v.ordered, v.bounded)))
]

contents-resize_buffer :
    (b : TcpBuffer) (n : ℕ)
    → IsValid b
    → read_able b ≤ n
    → contents (resize_buffer b n) ≡ contents b
unfolding contents resize_buffer
contents-resize_buffer b n v h =
    let e : min n (read_able b) ≡ read_able b = omega arith in
    rw e (
      slice-front (replicate n 0) (slice b.buffer b.read_index (read_able b)) (read_able b - 0)
        (omega (arith, length-slice b.buffer b.read_index (read_able b), v.ordered, v.bounded)))

contents-make_room : (b : TcpBuffer) (n : ℕ) → IsValid b → contents (make_room b n) ≡ contents b
contents-make_room b n v = elim (Bool-cases (ltb (write_able b) n)) [
  | inl e ↦ rw e (contents-resize_buffer b (grown_size b n) v (omega arith))
  | inr e ↦ rw e refl
]

-- Bytes written at `w` follow what stood between `r` and `w`.
pub slice-splice :
    (buf xs : List ℕ) (r w : ℕ)
    → r ≤ w
    → w ≤ length buf
    → slice (splice buf w xs) r (w + length xs - r) ≡ slice buf r (w - r) ++ xs
unfolding splice
slice-splice buf xs r w h k =
    rw (drop-append_le r (take w buf) _ (omega (arith, length-take w buf)), drop-take r w buf)
      (rw (← append_assoc) (take-append _ (take (w - r) (drop r buf) ++ xs) _ counted))
  where
    counted : w + length xs - r ≡ length (take (w - r) (drop r buf) ++ xs)
    counted = omega (
      arith,
      length-append (take (w - r) (drop r buf)) xs,
      length-take (w - r) (drop r buf),
      length-drop r buf,
    )

-- Writing to a valid buffer appends exactly the bytes written to what is readable, whether or not
-- the buffer grows.
pub contents-write_to_buffer :
    (b : TcpBuffer) (xs : List ℕ) → IsValid b → contents (write_to_buffer b xs) ≡ contents b ++ xs
contents-write_to_buffer b xs v =
    let b' = make_room b (length xs) in
    let (v', room, _) = make_room_room b (length xs) v in
    rw (← contents-make_room b (length xs) v) (
      unfold contents write_to_buffer in
      slice-splice b'.buffer xs b'.read_index b'.write_index v'.ordered v'.bounded)

contents_advanced :
    (b : TcpBuffer) (k : ℕ)
    → k ≤ read_able b
    → contents (record b { read_index = b.read_index + k }) ≡ drop k (contents b)
unfolding contents
contents_advanced b k h =
    let e : b.write_index - (b.read_index + k) ≡ read_able b - k = omega arith in
    rw
      (e, drop-take k (read_able b) (drop b.read_index b.buffer), drop-drop b.read_index k b.buffer)

contents_consumed :
    (b : TcpBuffer) (k : ℕ)
    → IsValid b
    → k ≤ read_able b
    → contents (adjust_buffer (record b { read_index = b.read_index + k })) ≡ drop k (contents b)
contents_consumed b k v h =
    rw
      (contents-adjust_buffer (record b { read_index = b.read_index + k })
        (omega (arith, v.ordered, v.bounded)))
      (contents_advanced b k h)

-- Reading from a valid buffer hands out the oldest bytes, at most `n` of them, and leaves the rest.
pub read_from_buffer_lem :
    (b : TcpBuffer) (n : ℕ)
    → IsValid b
    → ((read_from_buffer b n).0 ≡ take n (contents b))
      × (contents (read_from_buffer b n).1 ≡ drop n (contents b))
unfolding read_from_buffer
read_from_buffer_lem b n v =
    let all = length-contents b v in
    elim (Bool-cases (read_able b == 0)) [
      | inl e ↦
          let none_left : contents b ≡ [] = ground (arith, all) in
          rw e (
            rw (none_left, take_all {A = ℕ} n [] (omega arith)) refl,
            rw (none_left, drop_all {A = ℕ} n [] (omega arith)) refl,
          )
      | inr e ↦ elim (Bool-cases (ltb n (read_able b))) [
        | inl f ↦
            rw (e, f)
              (
                unfold contents in
                    sym (take-take n (read_able b) (drop b.read_index b.buffer) (ground arith)),
                contents_consumed b n v (ground arith),
              )
        | inr f ↦
            rw (e, f)
              (
                unfold contents in
                    sym (
                      take_all n (slice b.buffer b.read_index (read_able b)) (ground (arith, all))),
                contents_consumed b (read_able b) v (ground arith)
                    ∙ drop_all (read_able b) (contents b) (omega (arith, all))
                    ∙ sym (drop_all n (contents b) (ground (arith, all))),
              )
      ]
    ]

pub move_read_index-pos :
    (b : TcpBuffer) (n : ℕ)
    → move_read_index b (pos n) ≡ (
        if leb (length b.buffer) (b.read_index + n)
        then b
        else adjust_buffer (record b { read_index = b.read_index + n }))
unfolding move_read_index
move_read_index-pos b n = ground arith

-- Moving the read index of a valid buffer forward by `n` readable bytes drops those bytes, if the
-- new index is not the end of the vector; there the call is refused and the buffer stays as it is.
pub move_read_index_lem :
    (b : TcpBuffer) (n : ℕ)
    → IsValid b
    → n ≤ read_able b
    → ((b.read_index + n < length b.buffer)
        × (contents (move_read_index b (pos n)) ≡ drop n (contents b)))
      ⊎ ((b.read_index + n ≡ length b.buffer) × (move_read_index b (pos n) ≡ b))
move_read_index_lem b n v h = elim (Bool-cases (leb (length b.buffer) (b.read_index + n))) [
  | inl e ↦ inr (ground (arith, v.ordered, v.bounded), rw (move_read_index-pos b n, e) refl)
  | inr e ↦ inl (ground arith, rw (move_read_index-pos b n, e) (contents_consumed b n v h))
]

-- A queue of bytes: what the users of a buffer ask of it.
pub data Op : Type 0 where
  write : List ℕ → Op
  read : ℕ → Op

-- The bytes that each call returns.
unfoldable pub run : TcpBuffer → List Op → Outcome (List (List ℕ))
unfolding write_int
run b [] = ok []
run b (write xs ∷ ops) = write_int b xs >>= λ b'. run b' ops >>= λ outs. ok ([] ∷ outs)
run b (read n ∷ ops) =
    let (out, b') = read_from_buffer b n in run b' ops >>= λ outs. ok (out ∷ outs)

unfoldable pub run_queue : List ℕ → List Op → List (List ℕ)
run_queue q [] = []
run_queue q (write xs ∷ ops) = [] ∷ run_queue (q ++ xs) ops
run_queue q (read n ∷ ops) = take n q ∷ run_queue (drop n q) ops

-- The bytes of all writes.
unfoldable pub total : List Op → ℕ
total [] = 0
total (write xs ∷ ops) = length xs + total ops
total (read n ∷ ops) = total ops

write_index-write :
    (b : TcpBuffer) (xs : List ℕ)
    → IsValid b
    → (write_to_buffer b xs).write_index ≤ b.write_index + length xs
unfolding write_to_buffer resize_buffer
write_index-write b xs v = elim (Bool-cases (ltb (write_able b) (length xs))) [
  | inl e ↦ rw e (omega arith)
  | inr e ↦ rw e (omega arith)
]

write_index-read :
    (b : TcpBuffer) (n : ℕ) → IsValid b → (read_from_buffer b n).1.write_index ≤ b.write_index
unfolding read_from_buffer adjust_buffer
write_index-read b n v = ground (arith, v.ordered)

write_int_fits :
    (b : TcpBuffer) (xs : List ℕ) (m : ℕ)
    → b.write_index + (length xs + m) < 2 ^ 30
    → write_int b xs ≡ ok (write_to_buffer b xs)
unfolding write_int
write_int_fits b xs m h = let fine : fits_int b (length xs) ≡ true = ground arith in rw fine refl

-- While the write index and the bytes of all writes stay below 2^30 together, no sequence of writes
-- and reads overflows an `int` or tells a valid buffer from an unbounded queue of its contents.
pub run_refines :
    (ops : List Op) (b : TcpBuffer)
    → IsValid b
    → b.write_index + total ops < 2 ^ 30
    → run b ops ≡ ok (run_queue (contents b) ops)
unfolding run run_queue total
run_refines [] b v h = refl
run_refines (write xs ∷ ops) b v h =
    let small = write_index-write b xs v in
    let rest =
      run_refines ops (write_to_buffer b xs) (write_to_buffer-IsValid b xs v)
        (omega (arith, small, h))
      ∙ ap (λ q. ok (run_queue q ops)) (contents-write_to_buffer b xs v) in
    rw (write_int_fits b xs (total ops) h) (ap (λ m. m >>= λ outs. ok ([] ∷ outs)) rest)
run_refines (read n ∷ ops) b v h =
    let (got, left) = read_from_buffer_lem b n v in
    let small = write_index-read b n v in
    let rest =
      run_refines ops (read_from_buffer b n).1 (read_from_buffer-IsValid b n v)
        (omega (arith, small, h)) in
    ap (λ m. m >>= λ outs. ok ((read_from_buffer b n).0 ∷ outs)) rest
    ∙ ap (λ q. ok ((read_from_buffer b n).0 ∷ run_queue q ops)) left
    ∙ ap (λ out. ok (out ∷ run_queue (drop n (contents b)) ops)) got
