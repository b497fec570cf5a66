-- ===== src/Http.antt =====
-- src/Http: the request parser, the request and response objects, and the server's message handler.
pub mod Request
pub mod Context
pub mod Response
pub mod Mimetype
pub mod Server
