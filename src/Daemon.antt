-- ===== src/Daemon.antt =====
-- The daemon: sessions, the enrollment store, the pipeline, the handlers and the server.
pub mod Main
pub mod Models
pub mod Sessions
pub mod Store
pub mod Pipeline
pub mod Handlers
pub mod Server
