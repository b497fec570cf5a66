-- ===== src/MySql.antt =====
-- src/MySQL: the pool of database connections.
pub mod Pool
pub mod Query
