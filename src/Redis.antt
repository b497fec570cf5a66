-- ===== src/Redis.antt =====
-- src/Redis: the pool of resources, and the protocol of commands and replies.
pub mod Command
pub mod Socket
pub mod Connect
pub mod ResPool
pub mod Instance
