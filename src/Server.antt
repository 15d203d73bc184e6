-- ===== src/Server.antt =====
-- backend/gateway/cmd/gateway/main.go: the server, as `run` puts it together.
pub mod Routes
pub mod Dispatch
pub mod Guarded
pub mod Unambiguous
