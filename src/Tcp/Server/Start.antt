-- ===== src/Tcp/Server/Start.antt =====
-- How a server comes up: the constructor of tcp_acceptor.cc, and the constructor and `init` of
-- tcp_server.cc on the event loop of the thread. What the system calls and the clock return is an
-- argument, and `none` is a process that ends by `exit`. The store of timer events is that of the
-- loop's timer, and the server's event has a place of its own in it.
use my_rocket.Base.{
  ◌⊎◌, ltb, ℕ, ◌+◌, ◌-◌, ◌≡◌, ◌≢◌, refl, Bool, true, List, [], ◌==◌, if◌then◌else◌, ℤ, pos, negsuc,
  Option, none, some,
}
use my_rocket.Net.FdEvent.{FdEvent}
use my_rocket.Net.IoThread.{make_group}
use my_rocket.Net.Timer.{Store, make_event, emplace, update}
use my_rocket.Net.EventLoop.{Epoll}
use my_rocket.Net.EventLoop.Watching.{InSync}
use my_rocket.Net.EventLoop.Start.{
  Calls, ThreadLoop, reads, get_current, add_own, add_own_lem, add_repeated_event, added_event,
  for_reading, Accepts,
}
use my_rocket.Tcp.NetAddr.{Inet, IpNetAddr, af_inet, is_usable}
use my_rocket.Tcp.Server.{TcpServer}

-- The results of `socket`, `setsockopt`, `bind` and `listen`.
pub record SocketCalls : Type 0 where
  pub socket_fd : ℤ
  pub reuse_ok : Bool
  pub bind_ok : Bool
  pub listen_ok : Bool

pub record TcpAcceptor : Type 0 where
  pub family : ℕ
  pub listen_fd : ℕ

-- `TcpAcceptor::TcpAcceptor`; a failed `setsockopt` is only logged.
unfoldable pub make_acceptor : Inet → IpNetAddr → SocketCalls → Option TcpAcceptor
make_acceptor net addr s =
    if is_usable net addr
    then elim s.socket_fd [
      | negsuc n ↦ none
      | pos fd ↦
          if s.bind_ok
          then if s.listen_ok then some (record { family = af_inet; listen_fd = fd }) else none
          else none
    ]
    else none

-- A server with its loop.
pub record Listening (K : Type 0) : Type 0 where
  pub acceptor : TcpAcceptor
  pub main_loop : ThreadLoop K
  pub listen_fd_event : FdEvent
  pub server : TcpServer

-- The numbers of the two callbacks, of the server's timer event, and the interval of 5 s.
pub record Names : Type 0 where
  pub on_accept : ℕ
  pub clear_clients : ℕ
  pub clear_event : ℕ

abbrev pub clear_interval : ℕ
clear_interval = 5000

module _ {K : Type 0} (epoll : Epoll K) (empty : K) (read_empty on_timer : ℕ) (heap : Store)
    (names : Names) where
  -- The loop with the listening descriptor and the timer event; the clock is read as `now` for the event,
  -- and as `again` when the timer is armed.
  unfoldable pub watch_clients : ℕ → ℕ → ℕ → ThreadLoop K → ThreadLoop K
  watch_clients listen_fd now again l =
      add_repeated_event now again names.clear_event clear_interval names.clear_clients (record l {
        core = add_own epoll l.core.thread_id (reads listen_fd names.on_accept) l.core;
      })

  -- `TcpServer::TcpServer`, on a thread whose loop is `current`, for `io_threads` threads.
  unfoldable pub make_server :
      Inet
      → IpNetAddr
      → SocketCalls
      → Option (ThreadLoop K)
      → Calls
      → ℕ
      → ℕ
      → ℕ
      → List FdEvent
      → Option (Listening K)
  make_server net addr s current c io_threads now again fd_events =
      elim (make_acceptor net addr s) [
        | none ↦ none
        | some a ↦ elim (get_current epoll empty read_empty on_timer heap current c) [
          | none ↦ none
          | some l ↦ some (record {
            acceptor = a;
            main_loop = watch_clients a.listen_fd now again l;
            listen_fd_event = reads a.listen_fd names.on_accept;
            server = record {
              client_counts = 0;
              clients = [];
              io_threads = make_group io_threads;
              fd_events = fd_events;
            };
          })
        ]
      ]

  -- The four calls that end the process if they fail.
  abbrev pub Binds : Inet → IpNetAddr → SocketCalls → ℕ → Type 0
  Binds net addr s fd =
      (is_usable net addr ≡ true)
      × (s.socket_fd ≡ pos fd)
      × (s.bind_ok ≡ true)
      × (s.listen_ok ≡ true)

  make_acceptor-Binds :
      (net : Inet) (addr : IpNetAddr) (s : SocketCalls) (fd : ℕ)
      → Binds net addr s fd
      → make_acceptor net addr s ≡ some (record { family = af_inet; listen_fd = fd })
  unfolding make_acceptor
  make_acceptor-Binds net addr s fd (usable, made, bound, listens) =
      rw (usable, made, bound, listens) refl

  -- The thread has the loop `l`, made before or now, that lists exactly what the kernel watches. With a
  -- usable address, with a socket that is made, bound and listened to, and with calls of `epoll_ctl`
  -- that succeed, a server comes up on it. The loop then watches the listening socket for reading,
  -- and all else as before; its tasks are left. Its timer has got the event that clears clients, 5 s
  -- after the clock, not cancelled and to be repeated, at its place among the others, which are left. If
  -- there are no others, the timer is armed for it, or for 100 ms if the clock has passed that time.
  pub make_server_lem :
      (net : Inet) (addr : IpNetAddr) (s : SocketCalls) (current : Option (ThreadLoop K))
      (c : Calls) (l : ThreadLoop K) (fd n now again : ℕ) (fd_events : List FdEvent)
      → Binds net addr s fd
      → get_current epoll empty read_empty on_timer heap current c ≡ some l
      → Accepts epoll
      → InSync epoll l.core
      → let time = now + clear_interval in
        let clear = make_event now clear_interval true (some names.clear_clients) in
        (v : Listening K) × (make_server net addr s current c n now again fd_events ≡ some v)
        × ((j : ℕ)
            → epoll.watched v.main_loop.core.kernel j
              ≡ (if j == fd then some for_reading else epoll.watched l.core.kernel j))
        × InSync epoll v.main_loop.core
        × (v.main_loop.core.pending_tasks ≡ l.core.pending_tasks)
        × (v.main_loop.timer.pending ≡ emplace time names.clear_event l.timer.pending)
        × (v.main_loop.timer.events ≡ update l.timer.events names.clear_event clear)
        × (((l.timer.pending ≡ [])
              × (v.main_loop.timer.armed ≡ some (if ltb again time then time - again else 100)))
            ⊎ (l.timer.pending ≢ []))
  unfolding make_server
  make_server_lem net addr s current c l fd n now again fd_events binds got accepts sync =
      let (watches, sync', _, tasks) =
        add_own_lem epoll l.core.thread_id fd names.on_accept l.core accepts refl sync in
      let (pending, events, armed) =
        added_event now again names.clear_event clear_interval names.clear_clients
          (record l { core = add_own epoll l.core.thread_id (reads fd names.on_accept) l.core }) in
      let l' = watch_clients fd now again l in
      let v : Listening K = record {
        acceptor = record { family = af_inet; listen_fd = fd };
        main_loop = l';
        listen_fd_event = reads fd names.on_accept;
        server = record {
          client_counts = 0;
          clients = [];
          io_threads = make_group n;
          fd_events = fd_events;
        };
      } in
      let core : l'.core ≡ add_own epoll l.core.thread_id (reads fd names.on_accept) l.core =
        unfold watch_clients add_repeated_event in refl in
      (
        v,
        rw (make_server, make_acceptor-Binds net addr s fd binds) (rw got refl),
        λ j. rw core (watches j),
        rw core sync',
        rw core tasks,
        unfold watch_clients in pending,
        unfold watch_clients in events,
        unfold watch_clients in armed,
      )
