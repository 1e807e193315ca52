-- ===== src/Tcp/Buffer.antt =====
-- rocket/net/tcp/tcp_buffer.h and tcp_buffer.cc. The `int` indices are natural numbers, exact for
-- buffers below the sizes that `fits_int` tests, behind which the code overflows: an
-- operation keeps `read_index ≤ write_index ≤ m_buffer.size()`, so no difference below is cut off
-- at 0. A byte is a number below 256, and `std::vector<char>` starts as zeros.
pub mod Invariant
pub mod Contents
pub mod Room
mod Tests
use my_rocket.Base.{
  ℕ, ◌+◌, ◌-◌, ◌*◌, ◌/◌, ◌^◌, ◌&&◌, ◌||◌, min, Bool, Outcome, ok, fault, List, [], ◌++◌, length,
  take, drop, replicate, ltb, leb, ◌==◌, if◌then◌else◌, ℤ, pos, negsuc, ◌+ℤ◌,
}

pub record TcpBuffer : Type 0 where
  pub read_index : ℕ
  pub write_index : ℕ
  pub size : ℕ
  pub buffer : List ℕ

-- `memcpy` of `xs` over the bytes from index `i` on.
unfoldable pub splice : List ℕ → ℕ → List ℕ → List ℕ
splice buf i xs = take i buf ++ (xs ++ drop (i + length xs) buf)

-- `n` bytes from index `i` on.
abbrev pub slice : List ℕ → ℕ → ℕ → List ℕ
slice buf i n = take n (drop i buf)

unfoldable pub init : ℕ → TcpBuffer
init n = record { read_index = 0; write_index = 0; size = n; buffer = replicate n 0 }

abbrev pub read_able : TcpBuffer → ℕ
read_able b = b.write_index - b.read_index

abbrev pub write_able : TcpBuffer → ℕ
write_able b = length b.buffer - b.write_index

-- The readable bytes move to the front of a zeroed vector of `n` bytes; those that do not fit are
-- lost.
unfoldable pub resize_buffer : TcpBuffer → ℕ → TcpBuffer
resize_buffer b n =
    let count = min n (read_able b) in
    record b {
      read_index = 0;
      write_index = count;
      buffer = splice (replicate n 0) 0 (slice b.buffer b.read_index count);
    }

unfoldable pub adjust_buffer : TcpBuffer → TcpBuffer
adjust_buffer b =
    let count = read_able b in
    if ltb b.read_index (length b.buffer / 3) then b else record b {
      read_index = 0;
      write_index = count;
      buffer = splice (replicate (length b.buffer) 0) 0 (slice b.buffer b.read_index count);
    }

-- `(int)(1.5 * (m_write_index + size))`
abbrev pub grown_size : TcpBuffer → ℕ → ℕ
grown_size b n = 3 * (b.write_index + n) / 2

abbrev pub make_room : TcpBuffer → ℕ → TcpBuffer
make_room b n = if ltb (write_able b) n then resize_buffer b (grown_size b n) else b

unfoldable pub write_to_buffer : TcpBuffer → List ℕ → TcpBuffer
write_to_buffer b xs =
    let b' = make_room b (length xs) in
    record b' {
      write_index = b'.write_index + length xs;
      buffer = splice b'.buffer b'.write_index xs;
    }

-- Whether no `int` of `writeToBuffer` overflows for `n` bytes, its new size included.
abbrev pub fits_int : TcpBuffer → ℕ → Bool
fits_int b n =
    (leb n (write_able b) || ltb (grown_size b n) (2 ^ 31)) && ltb (b.write_index + n) (2 ^ 31)

-- `writeToBuffer` with an overflow as a fault.
unfoldable pub write_int : TcpBuffer → List ℕ → Outcome TcpBuffer
unfolding write_to_buffer
write_int b xs = if fits_int b (length xs) then ok (write_to_buffer b xs) else fault

-- What was read (`re` is left alone, here empty, if there is nothing to read), and the buffer.
unfoldable pub read_from_buffer : TcpBuffer → ℕ → List ℕ × TcpBuffer
read_from_buffer b n =
    let read_size = if ltb n (read_able b) then n else read_able b in
    if read_able b == 0 then ([], b) else (
      slice b.buffer b.read_index read_size,
      adjust_buffer (record b { read_index = b.read_index + read_size }),
    )

-- `size_t j = m_read_index + size`: a negative sum is a huge `size_t`, and is refused.
unfoldable pub move_read_index : TcpBuffer → ℤ → TcpBuffer
move_read_index b n = elim (pos b.read_index +ℤ n) [
  | pos j ↦ if leb (length b.buffer) j then b else adjust_buffer (record b { read_index = j })
  | negsuc _ ↦ b
]

unfoldable pub move_write_index : TcpBuffer → ℤ → TcpBuffer
move_write_index b n = elim (pos b.write_index +ℤ n) [
  | pos j ↦ if leb (length b.buffer) j then b else adjust_buffer (record b { write_index = j })
  | negsuc _ ↦ b
]
