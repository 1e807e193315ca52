-- ===== src/Common.antt =====
-- rocket/common: locks, request ids, logging and configuration.
pub mod Mutex
pub mod MsgId
pub mod Log
pub mod Config
pub mod Util
