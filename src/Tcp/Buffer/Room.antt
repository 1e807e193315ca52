-- ===== src/Tcp/Buffer/Room.antt =====
-- How much room tcp_buffer.cc keeps behind what is readable: `adjustBuffer` moves the bytes to the front
-- once a third of the vector is read.
use my_rocket.Base.{ℕ, ◌+◌, ◌*◌, ◌≤◌, ◌<◌, length, arith, pos, leb, Bool-cases, inl, inr}
use my_rocket.Tcp.Buffer.{TcpBuffer, read_able, write_able, adjust_buffer, move_read_index}
use my_rocket.Tcp.Buffer.Invariant.{IsValid}
use my_rocket.Tcp.Buffer.Contents.{move_read_index-pos}

-- At most a third is read.
abbrev pub IsLow : TcpBuffer → Type 0
IsLow b = 3 * b.read_index ≤ length b.buffer

pub adjust_buffer-IsLow : (b : TcpBuffer) → IsLow (adjust_buffer b)
unfolding adjust_buffer
adjust_buffer-IsLow b = ground arith

pub move_read_index-IsLow : (b : TcpBuffer) (n : ℕ) → IsLow b → IsLow (move_read_index b (pos n))
move_read_index-IsLow b n h = elim (Bool-cases (leb (length b.buffer) (b.read_index + n))) [
  | inl e ↦ rw (move_read_index-pos b n, e) h
  | inr e ↦
      rw (move_read_index-pos b n, e)
        (adjust_buffer-IsLow (record b { read_index = b.read_index + n }))
]

-- What is readable and two thirds of the vector leave this room.
pub write_able-IsLow :
    (b : TcpBuffer) (n : ℕ)
    → IsValid b
    → IsLow b
    → 3 * (read_able b + n) < 2 * length b.buffer
    → n < write_able b
write_able-IsLow b n v low h = omega (arith, v.ordered, v.bounded)
