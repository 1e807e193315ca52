-- ===== src/Coder.antt =====
-- rocket/net/coder: the wire formats.
pub mod TinyPb
pub mod StringCoder
