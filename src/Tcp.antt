-- ===== src/Tcp.antt =====
-- src/Tcp: a connection, and the server that owns the connections.
pub mod Connection
pub mod Server
