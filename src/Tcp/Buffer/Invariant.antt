-- ===== src/Tcp/Buffer/Invariant.antt =====
-- The representation invariant of a buffer: the indices are in order and within the vector.
use my_rocket.Base.{
  ℕ, ◌+◌, ◌-◌, ◌≤◌, ◌≡◌, refl, min, List, ◌++◌, length, take, drop, replicate, length-append,
  length-take, length-drop, length-replicate, arith, ℤ, pos, Bool-cases, inl, inr, ltb, pos_part,
  neg_part,
}
use my_rocket.Tcp.Buffer.{
  TcpBuffer, splice, slice, init, read_able, write_able, resize_buffer, adjust_buffer, grown_size,
  make_room, write_to_buffer, read_from_buffer, move_read_index, move_write_index,
}

pub record IsValid (b : TcpBuffer) : Type 0 where
  pub ordered : b.read_index ≤ b.write_index
  pub bounded : b.write_index ≤ length b.buffer

pub length-slice : (buf : List ℕ) (i n : ℕ) → i + n ≤ length buf → length (slice buf i n) ≡ n
length-slice buf i n h = omega (arith, length-take n (drop i buf), length-drop i buf)

pub length-splice :
    (buf : List ℕ) (i : ℕ) (xs : List ℕ)
    → i + length xs ≤ length buf
    → length (splice buf i xs) ≡ length buf
unfolding splice
length-splice buf i xs h = omega (
  arith,
  length-append (take i buf) (xs ++ drop (i + length xs) buf),
  length-append xs (drop (i + length xs) buf),
  length-take i buf,
  length-drop (i + length xs) buf,
)

-- The readable bytes of a valid buffer, copied to the front of `n` zeros.
length-front :
    (b : TcpBuffer) (n count : ℕ)
    → IsValid b
    → count ≤ n
    → count ≤ read_able b
    → length (splice (replicate n 0) 0 (slice b.buffer b.read_index count)) ≡ n
length-front b n count v h k = omega (
  arith,
  length-splice (replicate n 0) 0 (slice b.buffer b.read_index count),
  length-slice b.buffer b.read_index count,
  length-replicate {A = ℕ} n 0,
  v.ordered,
  v.bounded,
)

pub init-IsValid : (n : ℕ) → IsValid (init n)
unfolding init
init-IsValid n = omega arith

pub resize_buffer-IsValid : (b : TcpBuffer) (n : ℕ) → IsValid b → IsValid (resize_buffer b n)
unfolding resize_buffer
resize_buffer-IsValid b n v =
    omega (arith, length-front b n (min n (read_able b)) v (omega arith) (omega arith))

pub length-resize_buffer :
    (b : TcpBuffer) (n : ℕ) → IsValid b → length (resize_buffer b n).buffer ≡ n
unfolding resize_buffer
length-resize_buffer b n v = length-front b n (min n (read_able b)) v (omega arith) (omega arith)

pub length-adjust_buffer :
    (b : TcpBuffer) → IsValid b → length (adjust_buffer b).buffer ≡ length b.buffer
unfolding adjust_buffer
length-adjust_buffer b v =
    ground (arith, length-front b (length b.buffer) (read_able b) v (omega arith) (omega arith))

pub adjust_buffer-IsValid : (b : TcpBuffer) → IsValid b → IsValid (adjust_buffer b)
unfolding adjust_buffer
adjust_buffer-IsValid b v =
    ground (arith, length-front b (length b.buffer) (read_able b) v (omega arith) (omega arith))

pub write_index-adjust_buffer : (b : TcpBuffer) → (adjust_buffer b).write_index ≤ b.write_index
unfolding adjust_buffer
write_index-adjust_buffer b = ground arith

-- After `make_room` the vector holds `n` more bytes, and nothing readable is cut off.
pub make_room_room :
    (b : TcpBuffer) (n : ℕ)
    → IsValid b
    → IsValid (make_room b n)
      × ((make_room b n).write_index + n ≤ length (make_room b n).buffer)
      × (read_able (make_room b n) ≡ read_able b)
make_room_room b n v = elim (Bool-cases (ltb (write_able b) n)) [
  | inl e ↦ rw e (resize_buffer-IsValid b _ v, room, kept)
  | inr e ↦ rw e (v, ground arith, refl)
]
  where
    kept : read_able (resize_buffer b (grown_size b n)) ≡ read_able b
    kept = unfold resize_buffer in omega (arith, v.ordered)

    room :
        (resize_buffer b (grown_size b n)).write_index + n
        ≤ length (resize_buffer b (grown_size b n)).buffer
    room =
        rw (length-resize_buffer b (grown_size b n) v)
          (unfold resize_buffer in omega (arith, v.ordered))

pub write_to_buffer-IsValid :
    (b : TcpBuffer) (xs : List ℕ) → IsValid b → IsValid (write_to_buffer b xs)
unfolding write_to_buffer
write_to_buffer-IsValid b xs v =
    let (v', room, kept) = make_room_room b (length xs) v in
    omega (
      arith,
      v'.ordered,
      room,
      length-splice (make_room b (length xs)).buffer (make_room b (length xs)).write_index xs,
    )

pub read_from_buffer-IsValid :
    (b : TcpBuffer) (n : ℕ) → IsValid b → IsValid (read_from_buffer b n).1
unfolding read_from_buffer
read_from_buffer-IsValid b n v = ground (
  arith,
  adjust_buffer-IsValid (record b { read_index = b.read_index + n }),
  adjust_buffer-IsValid (record b { read_index = b.read_index + read_able b }),
)

pub move_read_index-IsValid :
    (b : TcpBuffer) (n : ℤ)
    → IsValid b
    → pos_part n ≤ neg_part n + read_able b
    → IsValid (move_read_index b n)
unfolding move_read_index
move_read_index-IsValid b n v h = ground (
  arith,
  adjust_buffer-IsValid (record b { read_index = b.read_index + pos_part n - neg_part n }),
)

pub move_write_index-IsValid :
    (b : TcpBuffer) (n : ℕ) → IsValid b → IsValid (move_write_index b (pos n))
unfolding move_write_index
move_write_index-IsValid b n v =
    ground (arith, adjust_buffer-IsValid (record b { write_index = b.write_index + n }))

-- Moving the read index forward keeps the vector's size, and the room behind the write index.
pub move_read_index_room :
    (b : TcpBuffer) (n : ℤ)
    → IsValid b
    → pos_part n ≤ neg_part n + read_able b
    → (length (move_read_index b n).buffer ≡ length b.buffer)
      × ((move_read_index b n).write_index ≤ b.write_index)
unfolding move_read_index
move_read_index_room b n v h =
    let b' = record b { read_index = b.read_index + pos_part n - neg_part n } in
    ground (arith, length-adjust_buffer b', write_index-adjust_buffer b')
