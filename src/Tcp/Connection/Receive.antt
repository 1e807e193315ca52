-- ===== src/Tcp/Connection/Receive.antt =====
-- What one `read` of `onRead` of tcp_connection.cc leaves in the receive buffer.
use my_rocket.Base.{
  ℕ, ◌+◌, ◌-◌, ◌≤◌, ◌<◌, ◌≡◌, ◌⊎◌, inl, inr, ◌∙◌, List, ◌++◌, length, take, drop, leb,
  if◌then◌else◌, arith, Bool-cases, take-append, drop-append_le, drop-take, length-take,
  length-drop,
}
use my_rocket.Tcp.Buffer.{TcpBuffer, write_able, slice, splice, adjust_buffer, move_write_index}
use my_rocket.Tcp.Buffer.Invariant.{IsValid, length-splice}
use my_rocket.Tcp.Buffer.Contents.{contents, contents-adjust_buffer, slice-splice}
use my_rocket.Tcp.Connection.{receive}

-- What stands before `w` is not changed by a write at `w`.
slice-splice_before :
    (buf xs : List ℕ) (r w : ℕ)
    → r ≤ w
    → w ≤ length buf
    → slice (splice buf w xs) r (w - r) ≡ slice buf r (w - r)
unfolding splice
slice-splice_before buf xs r w h k =
    rw (drop-append_le r (take w buf) _ (omega (arith, length-take w buf)), drop-take r w buf)
      (take-append (w - r) (take (w - r) (drop r buf)) _
        (omega (arith, length-take (w - r) (drop r buf), length-drop r buf)))

pub receive_cases :
    (b : TcpBuffer) (xs : List ℕ)
    → receive xs b ≡ (
        let filled = record b { buffer = splice b.buffer b.write_index xs } in
        if leb (length filled.buffer) (b.write_index + length xs)
        then filled
        else adjust_buffer (record filled { write_index = b.write_index + length xs }))
unfolding receive move_write_index
receive_cases b xs = ground arith

-- Bytes that leave room behind them are appended to what is readable. But bytes that fill the vector
-- to its end, as `onRead` asks for, are lost: the write index may not move to the end, and what is
-- readable stays as it was.
pub receive_lem :
    (b : TcpBuffer) (xs : List ℕ)
    → IsValid b
    → length xs ≤ write_able b
    → ((length xs < write_able b) × (contents (receive xs b) ≡ contents b ++ xs))
      ⊎ ((length xs ≡ write_able b) × (contents (receive xs b) ≡ contents b))
receive_lem b xs v h =
    let filled = splice b.buffer b.write_index xs in
    let size = length-splice b.buffer b.write_index xs (omega (arith, v.bounded)) in
    elim (Bool-cases (leb (length filled) (b.write_index + length xs))) [
      | inl e ↦ inr (
        ground (arith, size),
        rw (receive_cases b xs, e)
            (unfold contents in
              slice-splice_before b.buffer xs b.read_index b.write_index v.ordered v.bounded),
      )
      | inr e ↦
          let b' = record b { buffer = filled; write_index = b.write_index + length xs } in
          inl (
            ground (arith, size),
            rw (receive_cases b xs, e)
                (contents-adjust_buffer b' (ground (arith, size, v.ordered))
                  ∙ unfold contents in
                    slice-splice b.buffer xs b.read_index b.write_index v.ordered v.bounded),
          )
    ]
