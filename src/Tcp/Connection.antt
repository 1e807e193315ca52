-- ===== src/Tcp/Connection.antt =====
-- rocket/net/tcp/tcp_connection.h and tcp_connection.cc. What the calls of `read` and `write` return
-- is given as a list of results, one for each call; a method is `stuck` where the list ends before
-- its loop does. The dispatcher is the parameter `serve`, and a completion callback is a number, which
-- a method returns with the message that it is called with. The epoll state of the connection's
-- descriptor is the pair of bits that its event has, and whether the loop listens to it.
pub mod Receive
pub mod Send
pub mod Serve
pub mod Stream
pub mod CutLength
mod Tests
use my_rocket.Base.{
  ℕ, zero, suc, ◌+◌, ◌-◌, ◌*◌, ◌≡◌, Bool, true, false, List, [], ◌∷◌, ◌++◌, length, map, ltb, leb,
  ◌==◌, if◌then◌else◌, ℤ, pos, Option, none, some, Text, Outcome, ok, fault, stuck, ◌>>=◌,
}
use my_rocket.Base.Assoc.{lookup, insert, erase}
use my_rocket.Tcp.Buffer.{
  TcpBuffer, init, read_able, write_able, slice, splice, resize_buffer, move_write_index,
}
use my_rocket.Coder.TinyPb.{TinyPbProtocol, encode, decode}

pub data TcpState : Type 0 where
  not_connected connected half_closing closed : TcpState

pub data ConnectionType : Type 0 where
  by_server by_client : ConnectionType

pub record TcpConnection : Type 0 where
  pub state : TcpState
  pub connection_type : ConnectionType
  pub in_buffer : TcpBuffer
  pub out_buffer : TcpBuffer
  pub write_dones : List (TinyPbProtocol × ℕ)
  pub read_dones : List (Text × ℕ)
  pub epoll_in : Bool
  pub epoll_out : Bool
  pub is_listed : Bool

abbrev pub is_connected : TcpState → Bool
is_connected connected = true
is_connected _ = false

-- `listen` and `addEpollEvent`.
unfoldable pub listen_write : TcpConnection → TcpConnection
listen_write c = record c { epoll_out = true; is_listed = true }

unfoldable pub listen_read : TcpConnection → TcpConnection
listen_read c = record c { epoll_in = true; is_listed = true }

-- The constructor; a server's connection listens at once.
unfoldable pub make_connection : ℕ → ConnectionType → TcpConnection
unfolding listen_read
make_connection size by_server = listen_read (record {
  state = not_connected;
  connection_type = by_server;
  in_buffer = init size;
  out_buffer = init size;
  write_dones = [];
  read_dones = [];
  epoll_in = false;
  epoll_out = false;
  is_listed = false;
})
make_connection size by_client = record {
  state = not_connected;
  connection_type = by_client;
  in_buffer = init size;
  out_buffer = init size;
  write_dones = [];
  read_dones = [];
  epoll_in = false;
  epoll_out = false;
  is_listed = false;
}

-- The argument is not used.
unfoldable pub set_state : TcpState → TcpConnection → TcpConnection
set_state s c = record c { state = connected }

abbrev pub set_connection_type : ConnectionType → TcpConnection → TcpConnection
set_connection_type t c = record c { connection_type = t }

abbrev pub close : TcpConnection → TcpConnection
close c = record c { epoll_in = false; epoll_out = false; is_listed = false; state = closed }

unfoldable pub clear : TcpConnection → TcpConnection
clear c = elim c.state [
  | not_connected ↦ close c
  | connected ↦ close c
  | half_closing ↦ close c
  | closed ↦ c
]

-- Whether the socket is shut down too.
unfoldable pub shutdown : TcpConnection → TcpConnection × Bool
shutdown c = elim c.state [
  | not_connected ↦ (c, false)
  | connected ↦ (record c { state = half_closing }, true)
  | half_closing ↦ (record c { state = half_closing }, true)
  | closed ↦ (c, false)
]

unfoldable pub push_send_message : TinyPbProtocol → ℕ → TcpConnection → TcpConnection
push_send_message m done c = record c { write_dones = c.write_dones ++ (m, done) ∷ [] }

unfoldable pub push_read_message : Text → ℕ → TcpConnection → TcpConnection
push_read_message id done c = record c { read_dones = insert id done c.read_dones }

unfoldable pub reply : List TinyPbProtocol → TcpConnection → TcpConnection
unfolding listen_write
reply ms c = listen_write (record c { out_buffer = (encode ms c.out_buffer).1 })

-- What `read` returns: bytes (no more than it was asked for), the end of the stream, EAGAIN, or
-- another error.
pub data ReadResult : Type 0 where
  bytes : List ℕ → ReadResult
  end_of_stream try_again failed : ReadResult

pub data ReadEnd : Type 0 where
  read_all peer_closed : ReadEnd

-- Bytes of one `read`, put behind the write index.
unfoldable pub receive : List ℕ → TcpBuffer → TcpBuffer
receive xs b =
    move_write_index (record b { buffer = splice b.buffer b.write_index xs }) (pos (length xs))

abbrev pub make_space : TcpBuffer → TcpBuffer
make_space b = if write_able b == 0 then resize_buffer b (2 * length b.buffer) else b

-- The loop of `onRead`, a result for each call. After another error it just goes on.
unfoldable pub read_loop : List ReadResult → TcpBuffer → Outcome (ReadEnd × TcpBuffer)
read_loop [] b = stuck
read_loop (bytes xs ∷ rs) b =
    let b' = make_space b in
    let rest = read_loop rs (receive xs b') in
    if length xs == write_able b' then rest else ok (read_all, receive xs b')
read_loop (end_of_stream ∷ rs) b = ok (peer_closed, make_space b)
read_loop (try_again ∷ rs) b = ok (read_all, make_space b)
read_loop (failed ∷ rs) b = read_loop rs (make_space b)

-- The callbacks for the messages that wait for one, each with its message; the first message with
-- an id takes the callback away.
unfoldable pub complete :
    List TinyPbProtocol → List (Text × ℕ) → List (ℕ × TinyPbProtocol) × List (Text × ℕ)
complete [] waiting = ([], waiting)
complete (m ∷ ms) waiting = elim (lookup m.msg_id waiting) [
  | none ↦ complete ms waiting
  | some done ↦
      let (called, left) = complete ms (erase m.msg_id waiting) in ((done, m) ∷ called, left)
]

module _ (serve : TinyPbProtocol → TcpConnection → TcpConnection) where
  unfoldable pub serve_all : List TinyPbProtocol → TcpConnection → TcpConnection
  serve_all [] c = c
  serve_all (m ∷ ms) c = serve_all ms (serve m c)

  -- `excute`: the callbacks that are called, and the connection. `fuel` is that of `decode`.
  unfoldable pub excute : ℕ → TcpConnection → Outcome (List (ℕ × TinyPbProtocol) × TcpConnection)
  unfolding serve_all complete
  excute fuel c = decode fuel [] c.in_buffer >>= λ r.
      let c' = record c { in_buffer = r.1 } in
      elim c.connection_type [
        | by_server ↦ ok ([], serve_all r.0 c')
        | by_client ↦
            let (called, left) = complete r.0 c.read_dones in
            ok (called, record c' { read_dones = left })
      ]

  unfoldable pub on_read :
      ℕ → List ReadResult → TcpConnection → Outcome (List (ℕ × TinyPbProtocol) × TcpConnection)
  unfolding excute read_loop clear
  on_read fuel rs c =
      if is_connected c.state
      then (read_loop rs c.in_buffer >>= λ r. elim r.0 [
        | peer_closed ↦ ok ([], clear (record c { in_buffer = r.1 }))
        | read_all ↦ excute fuel (record c { in_buffer = r.1 })
      ])
      else ok ([], c)

-- What `write` returns: how many bytes it took, EAGAIN, or another error.
pub data WriteResult : Type 0 where
  wrote : ℕ → WriteResult
  would_block write_failed : WriteResult

-- The calls of `write`, each with the same bytes `xs`: what is handed to each, and whether all is
-- written. The read index does not move, so a short write is followed by a write of the same bytes.
unfoldable pub attempts : List WriteResult → List ℕ → Outcome (List (List ℕ) × Bool)
attempts [] xs = stuck
attempts (wrote n ∷ rs) xs =
    let rest = attempts rs xs in
    if leb (length xs) n then ok (xs ∷ [], true) else (rest >>= λ r. ok (xs ∷ r.0, r.1))
attempts (would_block ∷ rs) xs = ok (xs ∷ [], false)
attempts (write_failed ∷ rs) xs = attempts rs xs >>= λ r. ok (xs ∷ r.0, r.1)

abbrev pub write_loop : List WriteResult → TcpBuffer → Outcome (List (List ℕ) × Bool)
write_loop rs b =
    if read_able b == 0
    then ok ([], true)
    else attempts rs (slice b.buffer b.read_index (read_able b))

-- The callbacks of the messages just encoded, each with its message as `encode` left it.
unfoldable pub sent : List (TinyPbProtocol × ℕ) → List TinyPbProtocol → List (ℕ × TinyPbProtocol)
sent ((_, done) ∷ ds) (m ∷ ms) = (done, m) ∷ sent ds ms
sent _ _ = []

abbrev pub first : TinyPbProtocol × ℕ → TinyPbProtocol
first (m, _) = m

-- What a write event does: the bytes handed to each `write`, the callbacks, and the connection.
pub record Written : Type 0 where
  pub writes : List (List ℕ)
  pub called : List (ℕ × TinyPbProtocol)
  pub after : TcpConnection

-- `cancle(OUT_EVENT)` and `addEpollEvent` once all is written.
abbrev pub unlisten : Bool → TcpConnection → TcpConnection
unlisten true c = record c { epoll_out = false; is_listed = true }
unlisten false c = c

unfoldable pub on_write : List WriteResult → TcpConnection → Outcome Written
on_write rs c =
    if is_connected c.state
    then elim c.connection_type [
      | by_server ↦ write_loop rs c.out_buffer >>= λ r.
          ok (record { writes = r.0; called = []; after = unlisten r.1 c })
      | by_client ↦
          let (ms, out) = encode (map first c.write_dones) c.out_buffer in
          write_loop rs out >>= λ r. ok (record {
            writes = r.0;
            called = sent c.write_dones ms;
            after = record (unlisten r.1 (record c { out_buffer = out })) { write_dones = [] };
          })
    ]
    else ok (record { writes = []; called = []; after = c })
