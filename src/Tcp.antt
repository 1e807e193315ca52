-- ===== src/Tcp.antt =====
-- rocket/net/tcp: buffers, connections, addresses, the client and the server.
pub mod Buffer
pub mod NetAddr
pub mod Connection
pub mod Client
pub mod Server
