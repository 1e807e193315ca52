-- ===== src/Tcp/Server.antt =====
-- rocket/net/tcp/tcp_acceptor.h, tcp_acceptor.cc, tcp_server.h and tcp_server.cc: the clients that a
-- server holds. `set<shared_ptr>` is a list in order of insertion: the
-- set's own order, by address, decides nothing, since each client is looked at by itself. A client's connection is closed by
-- its own thread. What `::accept` returns is an argument.
pub mod Start
mod Tests
use my_rocket.Base.{
  ℕ, suc, ◌+◌, ◌≡◌, ◌⊎◌, ◌≤◌, refl, sym, ap, ◌∙◌, Bool, true, false, not, List, [], ◌∷◌, ◌++◌,
  length, if◌then◌else◌, ◌==◌, ℤ, pos, negsuc, pos_part, Option, none, some, Outcome, ok, fault,
  ◌>>=◌, arith, Bool-cases, inl, inr, append_assoc, All,
}
use my_rocket.Tcp.NetAddr.{Inet, IpNetAddr, SockAddr, af_inet, of_sock}
use my_rocket.Tcp.Connection.{
  TcpConnection, TcpState, not_connected, connected, half_closing, closed, by_server,
  make_connection, set_state, clear, listen_read,
}
use my_rocket.Net.FdEvent.{FdEvent, get_fd_event, IsIndexed, get_fd_event_lem}
use my_rocket.Net.IoThread.{IoThreadGroup, get_io_thread}

-- `TcpAcceptor::accept`: the descriptor and the address of the peer.
unfoldable pub accept : Inet → ℕ → ℤ → SockAddr → ℤ × Option IpNetAddr
accept net family client_fd client_addr =
    if family == af_inet then (client_fd, some (of_sock net client_addr)) else (negsuc 0, none)

-- A client: its descriptor, the thread whose loop has it, and its connection.
pub record Client : Type 0 where
  pub fd : ℕ
  pub io_thread : ℕ
  pub peer_addr : Option IpNetAddr
  pub connection : TcpConnection

pub record TcpServer : Type 0 where
  pub client_counts : ℕ
  pub clients : List Client
  pub io_threads : IoThreadGroup
  pub fd_events : List FdEvent

-- The new connection looks up the event of its descriptor.
unfoldable pub on_accept : ℤ × Option IpNetAddr → TcpServer → Outcome TcpServer
unfolding get_io_thread
on_accept (client_fd, peer_addr) s = get_fd_event client_fd s.fd_events >>= λ r. ok (record s {
  client_counts = s.client_counts + 1;
  io_threads = (get_io_thread s.io_threads).1;
  fd_events = r.1;
  clients =
      s.clients
      ++ record {
        fd = pos_part client_fd;
        io_thread = (get_io_thread s.io_threads).0;
        peer_addr = peer_addr;
        connection = set_state connected (make_connection 128 by_server);
      }
        ∷ [];
})

abbrev pub is_closed : TcpState → Bool
is_closed closed = true
is_closed not_connected = false
is_closed connected = false
is_closed half_closing = false

-- `ClearClientTimerFunc`
unfoldable pub erase_closed : List Client → List Client
erase_closed [] = []
erase_closed (c ∷ cs) =
    if is_closed c.connection.state then erase_closed cs else c ∷ erase_closed cs

unfoldable pub clear_clients : TcpServer → TcpServer
unfolding erase_closed
clear_clients s = record s { clients = erase_closed s.clients }

-- The peers of a descriptor close, and their connections are cleared.
unfoldable pub close_clients : ℕ → List Client → List Client
close_clients fd [] = []
close_clients fd (c ∷ cs) =
    (if c.fd == fd then record c { connection = clear c.connection } else c) ∷ close_clients fd cs

-- `failed_accept` is a new client whose `::accept` fails with -1, which `onAccept` does not look at.
pub data Event : Type 0 where
  accepted : ℕ → Option IpNetAddr → Event
  failed_accept : Option IpNetAddr → Event
  closes : ℕ → Event
  expired : Event

unfoldable pub handle : Event → TcpServer → Outcome TcpServer
unfolding on_accept clear_clients close_clients
handle (accepted fd peer) s = on_accept (pos fd, peer) s
handle (failed_accept peer) s = on_accept (negsuc 0, peer) s
handle (closes fd) s = ok (record s { clients = close_clients fd s.clients })
handle expired s = ok (clear_clients s)

unfoldable pub handle_all : List Event → TcpServer → Outcome TcpServer
unfolding handle
handle_all [] s = ok s
handle_all (e ∷ es) s = handle e s >>= handle_all es

-- The descriptors of the connections that are not closed.
unfoldable pub open_fds : List Client → List ℕ
open_fds [] = []
open_fds (c ∷ cs) = if is_closed c.connection.state then open_fds cs else c.fd ∷ open_fds cs

-- What they should be after some events.
unfoldable pub without : ℕ → List ℕ → List ℕ
without fd [] = []
without fd (x ∷ xs) = if x == fd then without fd xs else x ∷ without fd xs

unfoldable pub expected : List Event → List ℕ → List ℕ
unfolding without
expected [] xs = xs
expected (accepted fd peer ∷ es) xs = expected es (xs ++ fd ∷ [])
expected (failed_accept peer ∷ es) xs = expected es xs
expected (closes fd ∷ es) xs = expected es (without fd xs)
expected (expired ∷ es) xs = expected es xs

unfoldable pub accepts : List Event → ℕ
accepts [] = 0
accepts (accepted fd peer ∷ es) = suc (accepts es)
accepts (failed_accept peer ∷ es) = accepts es
accepts (closes fd ∷ es) = accepts es
accepts (expired ∷ es) = accepts es

open_fds-append : (cs ds : List Client) → open_fds (cs ++ ds) ≡ open_fds cs ++ open_fds ds
unfolding open_fds
open_fds-append [] ds = refl
open_fds-append (c ∷ cs) ds = ground (arith, open_fds-append cs ds)

open_fds-erase_closed : (cs : List Client) → open_fds (erase_closed cs) ≡ open_fds cs
unfolding open_fds erase_closed
open_fds-erase_closed [] = refl
open_fds-erase_closed (c ∷ cs) = ground (arith, open_fds-erase_closed cs)

closed-clear : (k : TcpConnection) → is_closed (clear k).state ≡ true
unfolding clear
closed-clear k = ground arith

open_fds-close_clients :
    (fd : ℕ) (cs : List Client) → open_fds (close_clients fd cs) ≡ without fd (open_fds cs)
unfolding open_fds close_clients without
open_fds-close_clients fd [] = refl
open_fds-close_clients fd (c ∷ cs) =
    ground (arith, open_fds-close_clients fd cs, closed-clear c.connection)

on_accept_lem :
    (fd : ℕ) (peer : Option IpNetAddr) (s : TcpServer)
    → 2 ≤ length s.fd_events
    → IsIndexed s.fd_events
    → (s' : TcpServer) × (on_accept (pos fd, peer) s ≡ ok s')
      × (open_fds s'.clients ≡ open_fds s.clients ++ fd ∷ [])
      × (s'.client_counts ≡ s.client_counts + 1)
      × (2 ≤ length s'.fd_events)
      × IsIndexed s'.fd_events
unfolding on_accept
on_accept_lem fd peer s two h =
    let (e, g, found, same_fd, h', grown) = get_fd_event_lem fd s.fd_events two h in
    let client : Client = record {
      fd = fd;
      io_thread = (get_io_thread s.io_threads).0;
      peer_addr = peer;
      connection = set_state connected (make_connection 128 by_server);
    } in
    let s' : TcpServer = record s {
      client_counts = s.client_counts + 1;
      io_threads = (get_io_thread s.io_threads).1;
      fd_events = g;
      clients = s.clients ++ client ∷ [];
    } in
    (
      s',
      rw found refl,
      open_fds-append s.clients (client ∷ []) ∙ (unfold open_fds set_state in refl),
      refl,
      omega (arith, two, grown),
      h',
    )

-- No `::accept` fails.
unfoldable pub no_failure : List Event → Bool
no_failure [] = true
no_failure (accepted fd peer ∷ es) = no_failure es
no_failure (failed_accept peer ∷ es) = false
no_failure (closes fd ∷ es) = no_failure es
no_failure (expired ∷ es) = no_failure es

handled_on :
    (e : Event) (es : List Event) (s s1 : TcpServer)
    → handle e s ≡ ok s1
    → handle_all (e ∷ es) s ≡ handle_all es s1
unfolding handle_all
handled_on e es s s1 runs = ap (λ (m : Outcome TcpServer). m >>= handle_all es) runs

-- With a table of events for descriptors, a server handles any sequence of accepted clients, closing
-- clients and expiries of its timer. The connections that are open at the end are those that were
-- accepted and did not close, in order, wherever the timer came between; each accepted client is
-- counted once, and the count never falls again. If an `::accept` fails in between, then the sequence
-- ends with an access out of range.
pub handle_all_lem :
    (es : List Event) (s : TcpServer)
    → 2 ≤ length s.fd_events
    → IsIndexed s.fd_events
    → ((no_failure es ≡ true)
        × (s' : TcpServer) × (handle_all es s ≡ ok s')
        × (open_fds s'.clients ≡ expected es (open_fds s.clients))
        × (s'.client_counts ≡ s.client_counts + accepts es))
      ⊎ ((no_failure es ≡ false) × (handle_all es s ≡ fault))
unfolding handle_all handle expected accepts clear_clients no_failure
handle_all_lem [] s two h = inl (refl, s, refl, refl, omega arith)
handle_all_lem (accepted fd peer ∷ es) s two h =
    let (s1, runs, opened, count, two', h') = on_accept_lem fd peer s two h in
    let on = handled_on (accepted fd peer) es s s1 runs in
    elim (handle_all_lem es s1 two' h') [
      | inl (fine, s', later, still, total) ↦
          inl (fine, s', on ∙ later, still ∙ ap (expected es) opened, omega (arith, total, count))
      | inr (bad, later) ↦ inr (bad, on ∙ later)
    ]
handle_all_lem (failed_accept peer ∷ es) s two h = inr (refl, unfold on_accept get_fd_event in refl)
handle_all_lem (closes fd ∷ es) s two h =
    elim (handle_all_lem es (record s { clients = close_clients fd s.clients }) two h) [
      | inl (fine, s', later, still, total) ↦
          inl
            (fine, s', later, still ∙ ap (expected es) (open_fds-close_clients fd s.clients), total)
      | inr (bad, later) ↦ inr (bad, later)
    ]
handle_all_lem (expired ∷ es) s two h = elim (handle_all_lem es (clear_clients s) two h) [
  | inl (fine, s', later, still, total) ↦
      inl (fine, s', later, still ∙ ap (expected es) (open_fds-erase_closed s.clients), total)
  | inr (bad, later) ↦ inr (bad, later)
]
