-- ===== src/Net.antt =====
-- rocket/net: timers, file descriptor events, the event loop and its threads.
pub mod Timer
pub mod FdEvent
pub mod EventLoop
pub mod IoThread
