-- ===== src/Lib.antt =====
-- A model of rocket, an RPC framework in C++: a reactor of epoll loops, TCP connections with buffers,
-- a binary protocol around protobuf messages, and a dispatcher that calls services.
--
-- The parts, and the files that model them (paths from the repository's root):
--   Tcp.Buffer        rocket/net/tcp/tcp_buffer.{h,cc}: a vector with a read and a write index. A
--                     method is a function of the same name with underscores, from buffer to buffer.
--   Tcp.Connection    rocket/net/tcp/tcp_connection.{h,cc}: reads into one buffer, decodes, hands
--                     requests to the dispatcher; encodes replies into another and writes them out.
--                     Tcp.Connection.Stream is about requests that come in several reads.
--   Tcp.Client        rocket/net/tcp/tcp_client.{h,cc}: connecting, and a connection's requests.
--   Tcp.Server        rocket/net/tcp/tcp_server.{h,cc} and tcp_acceptor.cc: accepted clients, and the
--                     timer that lets go of closed ones; Tcp.Server.Start is the set-up.
--   Tcp.NetAddr       rocket/net/tcp/net_addr.{h,cc}: IPv4 addresses and their texts.
--   Coder.TinyPb      rocket/net/coder/tinypb_coder.{h,cc} and tinypb_protocol.{h,cc}: the packets of
--                     the wire, read from and written to the buffers of Tcp.Buffer.
--   Coder.StringCoder rocket/net/coder/string_coder.h: bytes without a frame.
--   Rpc.Dispatcher    rocket/net/rpc/rpc_dispatcher.{h,cc} and rocket/common/run_time.h: from a
--                     request to a service's method, and its response to the connection;
--                     Rpc.Dispatcher.Serving has a connection with the dispatcher behind it.
--   Rpc.CallRpc       the macros of rpc_channel.h: a call with its channel, made on a name; and in
--                     Rpc.CallRpc.Nested a call of a service that answers another.
--   Rpc.Controller    rocket/net/rpc/rpc_controller.{h,cc}: what a method is told of its call.
--   Rpc.Channel       rocket/net/rpc/rpc_channel.{h,cc}: a call of a client, from `CallMethod` over its
--                     callbacks and its timeout to the user's closure. The callbacks are run by
--                     events, in any order; they use Tcp.Client and its Tcp.Connection.
--   Rpc.Closure       rocket/net/rpc/rpc_closure.h, rpc_interface.{h,cc} and
--                     rocket/common/exception.h: callbacks that share a call, and what the last of
--                     them does for it.
--   Rpc.EndToEnd      a call over both sides, from Rpc.Channel to Rpc.Dispatcher and back.
--   Rpc.ErrorCode     rocket/common/error_code.h.
--   Net.Timer         rocket/net/timer.{h,cc} and timer_event.{h,cc}: a multimap of timed events;
--                     Net.Timer.Alarm is about the time at which its timerfd fires.
--   Net.FdEvent       rocket/net/fd_event.{h,cc} and fd_event_group.{h,cc}: what to wait for on a
--                     descriptor, and the table of all descriptors.
--   Net.EventLoop     rocket/net/eventloop.{h,cc} and wakeup_fd_event.{h,cc}: registration with epoll,
--                     the queue of tasks, and rounds of the loop; the constructor in
--                     Net.EventLoop.Start, the steps of tasks in Net.EventLoop.Tasks, and
--                     the handlers of the wake-up descriptor and the timer's in
--                     Net.EventLoop.Drain.
--   Net.IoThread      rocket/net/io_thread.{h,cc} and io_thread_group.{h,cc}: the start of a thread
--                     with its loop, its destructor (Net.IoThread.Ending), the start of a group
--                     (Net.IoThread.Group), and the choice of a thread for a new connection.
--   Common.Mutex      rocket/common/mutex.h: the guard that all of these lock with.
--   Common.Log        rocket/common/log.{h,cc}: loggers, their buffers, and the threads that write;
--                     `syncLoop` in the steps between its locks in Common.Log.Steps, the set-up in
--                     Common.Log.Start, the signal handler in Common.Log.Signal.
--   Common.Config     rocket/common/config.{h,cc}: a configuration out of an XML document, with the
--                     addresses of services that Rpc.Channel looks up.
--   Common.MsgId      rocket/common/msg_id_util.cc: ids of requests.
--   Common.Util       rocket/common/util.cc: the clock, and the numbers of process and thread.
--   Testcases         testcases/test_rpc_server.cc with testcases/order.proto: the one service of the
--                     repository, behind the dispatcher and a server's connection.
--   Base              what the parts share: lists, integers, texts, results, association maps.
--
-- State is passed explicitly. A shared object, such as a timer event, is a number into a store that
-- its users pass around. What stands outside of the repository is a parameter: the interest list of
-- epoll (record `Epoll`), `inet_addr` and `inet_ntoa` (record `Inet`), protobuf's services and
-- messages (record `Service`) and its parser of a response, tinyxml's documents (record `Xml`),
-- `strerror`, `ftell` (`tell`), `signal` (`takes`), the counters of eventfd and timerfd (record `Counter`). What a system
-- call returns is an argument, one result for each call.
--
-- Bounds. Numbers are natural numbers or integers; where the code reads or writes a fixed number of
-- bits, the wrap-around is written out (the 32 bits of the wire, those of `atoi`, the 16 bits of a port). The
-- indices and sizes of a TcpBuffer are ints: `write_int` is a write whose overflow is a fault, and
-- `write_to_buffer`, which the connections use, is the write of a buffer that is small enough. `decode`
-- takes fuel for the rounds of its outer loop: more rounds than there are packets are enough for
-- packets that `encode` wrote, and for hostile bytes no fuel may be. An access out of range and a null
-- pointer that is followed are the result `fault`, the end of the fuel or of the given results is
-- `stuck`.
--
-- Not modelled: the lifetimes of shared objects, and the destructors but those of IOThread and
-- RpcInterface; what the code logs while it does something else; a timerfd that cannot be made, whose
-- error the code does not look at; functions that only give back a field; printing and the other plain
-- system calls; the other test programs, the protobuf code that protoc generates, and the Python
-- generator of projects.
pub mod Base
pub mod Tcp
pub mod Coder
pub mod Rpc
pub mod Net
pub mod Common
pub mod Testcases
