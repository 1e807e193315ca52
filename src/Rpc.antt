-- ===== src/Rpc.antt =====
-- rocket/net/rpc: calls on both sides of the wire.
pub mod ErrorCode
pub mod Controller
pub mod Dispatcher
pub mod Closure
pub mod Channel
pub mod EndToEnd
pub mod CallRpc
