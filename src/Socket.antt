-- ===== src/Socket.antt =====
-- src/Socket: the addresses of sockets.
pub mod Address
