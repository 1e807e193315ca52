-- ===== src/Tcp/Server/Tests.antt =====
-- Clients of rocket/net/tcp/tcp_server.cc.
use my_rocket.Base.{◌≢◌, ltb, ◌+◌, ◌≡◌, ◌⊎◌, fault, List, [], ◌∷◌, none, ok, arith}
use my_rocket.Net.FdEvent as FdEvent
use my_rocket.Net.FdEvent.{make_group-IsIndexed}
use my_rocket.Net.IoThread as IoThread
use my_rocket.Base.{ℕ, ◌-◌, refl, true, false, some, pos, if◌then◌else◌, ◌==◌}
use my_rocket.Net.Timer.{make_event, emplace, update}
use my_rocket.Net.EventLoop.{contains}
use my_rocket.Net.EventLoop.Watching.{InSync}
use my_rocket.Net.EventLoop.Simple.{Kernel, kernel, bare}
use my_rocket.Net.EventLoop.Start.{
  Calls, ThreadLoop, Accepts, reads, add_own, add_own_lem, new_loop, get_current, for_reading,
}
use my_rocket.Tcp.NetAddr.{Inet, IpNetAddr, is_usable}
use my_rocket.Tcp.Server.Start.{
  SocketCalls, Names, Listening, make_server, make_server_lem, clear_interval,
}
use my_rocket.Tcp.Server.{
  TcpServer, Event, accepted, closes, expired, handle_all, open_fds, expected, accepts, no_failure,
  handle_all_lem,
}

abbrev server : TcpServer
server = record {
  client_counts = 0;
  clients = [];
  io_threads = IoThread.make_group 2;
  fd_events = FdEvent.make_group 128;
}

-- Two clients come, the first one closes, the timer expires, and its descriptor is used again.
abbrev events : List Event
events = accepted 7 none ∷ accepted 8 none ∷ closes 7 ∷ expired ∷ accepted 7 none ∷ []

handle_all_lem_example :
    ((no_failure events ≡ true)
      × (s' : TcpServer) × (handle_all events server ≡ ok s')
      × (open_fds s'.clients ≡ expected events (open_fds []))
      × (s'.client_counts ≡ 0 + accepts events))
    ⊎ ((no_failure events ≡ false) × (handle_all events server ≡ fault))
handle_all_lem_example =
    handle_all_lem events server (omega (arith, (make_group-IsIndexed 128).1))
      (make_group-IsIndexed 128).0

abbrev inet : Inet
inet = record { inet_addr = λ ip. 1; inet_ntoa = λ n. b'1' ∷ [] }

abbrev local : IpNetAddr
local = record { ip = b'1' ∷ []; port = 80; sock = none }

abbrev sockets : SocketCalls
sockets = record { socket_fd = pos 6; reuse_ok = false; bind_ok = true; listen_ok = true }

abbrev loop_calls : Calls
loop_calls = record { thread_id = 1; epoll_fd = pos 3; wakeup_fd = pos 4; timer_fd = 5 }

abbrev names : Names
names = record { on_accept = 42; clear_clients = 43; clear_event = 0 }

-- The thread has a loop with a timer event of its own: the one that syncs the log.
abbrev logging : ThreadLoop Kernel
logging = record {
  core =
      add_own kernel 1 (reads 4 40)
        (new_loop kernel bare 40 41 (λ p. make_event 0 500 true none) 1);
  epoll_fd = pos 3;
  wakeup_fd_event = reads 4 40;
  timer_event = reads 5 41;
  timer = record {
    pending = (500, 1) ∷ [];
    armed = some 500;
    events = λ p. make_event 0 500 true none;
  };
}

accepts_all : Accepts kernel
unfolding kernel
accepts_all k op fd = refl

logging-InSync : InSync kernel logging.core
logging-InSync =
    (add_own_lem kernel 1 4 40 (new_loop kernel bare 40 41 (λ p. make_event 0 500 true none) 1)
      accepts_all (unfold new_loop in refl)
      (unfold new_loop contains kernel in λ fd. ((λ p. cc), (λ n. absurd (n refl))))).1

make_server_lem_example :
    (v : Listening Kernel) × (make_server kernel bare 40 41
        (λ p. make_event 0 1 false none)
        names
        inet
        local
        sockets
        (some logging)
        loop_calls
        2
        1000
        1001
        []
      ≡ some v)
    × ((j : ℕ)
        → kernel.watched v.main_loop.core.kernel j
          ≡ (if j == 6 then some for_reading else kernel.watched logging.core.kernel j))
    × InSync kernel v.main_loop.core
    × (v.main_loop.core.pending_tasks ≡ logging.core.pending_tasks)
    × (v.main_loop.timer.pending ≡ emplace 6000 0 ((500, 1) ∷ []))
    × (v.main_loop.timer.events
        ≡ update logging.timer.events 0 (make_event 1000 clear_interval true (some 43)))
    × (((logging.timer.pending ≡ [])
          × (v.main_loop.timer.armed ≡ some (if ltb 1001 6000 then 6000 - 1001 else 100)))
        ⊎ (logging.timer.pending ≢ []))
make_server_lem_example =
    make_server_lem kernel bare 40 41 (λ p. make_event 0 1 false none) names inet local sockets
      (some logging) loop_calls logging 6 2 1000 1001 []
      ((unfold is_usable in refl), refl, refl, refl) (unfold get_current in refl) accepts_all
      logging-InSync
