-- ===== src/Tcp/Client.antt =====
-- rocket/net/tcp/tcp_client.h and tcp_client.cc. What `connect`, `socket` and `getsockname` return is
-- given as arguments; an error of `connect` is its `errno`, and `none` is success. A client whose
-- socket could not be made has no connection and no event, and following either is a fault. The loop
-- that `connect` starts where none runs is the caller's, as is the closing of the old socket.
pub mod Connecting
mod Tests
use my_rocket.Base.{
  ℕ, suc, ◌+◌, ◌≡◌, ◌≢◌, ◌↔◌, ◌⊎◌, inl, inr, refl, ◌∙◌, Bool, true, false, List, [], ◌∷◌, ◌++◌,
  if◌then◌else◌, ◌==◌, ◌||◌, ℤ, pos, negsuc, Option, none, some, Text, Outcome, ok, fault, ◌>>=◌,
  or_fault, arith, Bool-cases,
}
use my_rocket.Tcp.NetAddr.{Inet, IpNetAddr, SockAddr, of_sock}
use my_rocket.Tcp.Connection.{
  TcpConnection, TcpState, not_connected, connected, by_client, make_connection,
  set_connection_type, set_state, listen_write, listen_read, push_send_message, push_read_message,
}
use my_rocket.Coder.TinyPb.{TinyPbProtocol}
use my_rocket.Rpc.Dispatcher.{codes}
use my_rocket.Rpc.ErrorCode.{error_peer_closed, error_failed_connect}
use my_rocket.Net.EventLoop.{EventLoop}
use my_rocket.Net.EventLoop

-- The error numbers of Linux that the code asks for.
abbrev pub e_in_progress : ℕ
e_in_progress = 115

abbrev pub e_is_conn : ℕ
e_is_conn = 106

abbrev pub e_conn_refused : ℕ
e_conn_refused = 111

pub record TcpClient : Type 0 where
  pub fd : ℤ
  pub peer_addr : IpNetAddr
  pub local_addr : Option IpNetAddr
  pub connection : Option TcpConnection
  pub connect_error_code : ℤ
  pub connect_error_info : Text

-- The constructor, with what `socket` returned.
unfoldable pub make_client : ℤ → IpNetAddr → TcpClient
make_client (pos fd) peer_addr = record {
  fd = pos fd;
  peer_addr = peer_addr;
  local_addr = none;
  connection = some (set_connection_type by_client (make_connection 128 by_client));
  connect_error_code = pos 0;
  connect_error_info = [];
}
make_client (negsuc n) peer_addr = record {
  fd = negsuc n;
  peer_addr = peer_addr;
  local_addr = none;
  connection = none;
  connect_error_code = pos 0;
  connect_error_info = [];
}

-- A call of a method of the connection.
abbrev pub on_connection : (TcpConnection → TcpConnection) → TcpClient → Outcome TcpClient
on_connection f c = or_fault c.connection >>= λ k. ok (record c { connection = some (f k) })

-- What is left to do when `connect` returns: call `done`, or wait for the descriptor's event.
pub data Next : Type 0 where
  call_done await_event : Next

abbrev pub connect_failed : ℤ → Text → TcpClient → TcpClient
connect_failed code info c = record c { connect_error_code = code; connect_error_info = info }

-- `deleteEpollEvent(m_fd_event)`
abbrev pub unlist : TcpConnection → TcpConnection
unlist k = record k { is_listed = false }

module _ (net : Inet) (strerror : ℕ → Text) where
  -- The name that `getsockname` gives, or its failure.
  abbrev pub init_local_addr : Option SockAddr → TcpClient → TcpClient
  init_local_addr none c = c
  init_local_addr (some a) c = record c { local_addr = some (of_sock net a) }

  unfoldable pub connect : Option ℕ → Option SockAddr → TcpClient → Outcome (Next × TcpClient)
  connect none name c =
      on_connection (set_state connected) c >>= λ c'. ok (call_done, init_local_addr name c')
  connect (some errno) name c =
      if errno == e_in_progress
      then (on_connection listen_write c >>= λ c'. ok (await_event, c'))
      else ok (
        call_done,
        connect_failed error_failed_connect (codes "connect error, sys error = " ++ strerror errno)
            c,
      )

  -- The handler of the event that `connect` waits for; `done` follows. `socket` is the new socket
  -- that takes the place of one that could not connect.
  unfoldable pub connect_event : Option ℕ → Option SockAddr → ℤ → TcpClient → Outcome TcpClient
  connect_event none name socket c =
      on_connection (set_state connected) (init_local_addr name c) >>= on_connection unlist
  connect_event (some errno) name socket c =
      if errno == e_is_conn
      then (on_connection (set_state connected) (init_local_addr name c) >>= on_connection unlist)
      else on_connection unlist
          (record (if errno == e_conn_refused
            then connect_failed error_peer_closed
                (codes "connect refused, sys error = " ++ strerror errno) c
            else connect_failed error_failed_connect
                (codes "connect unkonwn error, sys error = " ++ strerror errno) c) { fd = socket })

-- `pushSendMessage` and `listenWrite`; `pushReadMessage` and `listenRead`.
unfoldable pub write_message : TinyPbProtocol → ℕ → TcpClient → Outcome TcpClient
write_message m done = on_connection (λ k. listen_write (push_send_message m done k))

unfoldable pub read_message : Text → ℕ → TcpClient → Outcome TcpClient
read_message id done = on_connection (λ k. listen_read (push_read_message id done k))

-- Of the client's loop.
unfoldable pub stop : {K : Type 0} → EventLoop K → EventLoop K
stop l = if l.is_looping then EventLoop.stop l else l
