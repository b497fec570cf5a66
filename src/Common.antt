-- ===== src/Common.antt =====
-- src/common: time stamps.
pub mod TimeStamp
