-- ===== src/Http.antt =====
-- http.rs: the requests, the handlers that call the hub, and what they compute by themselves.
pub mod Time
pub mod Respond
pub mod Filename
pub mod Handlers
pub mod Serve
