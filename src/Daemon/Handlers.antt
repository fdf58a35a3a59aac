-- ===== src/Daemon/Handlers.antt =====
-- daemon/handlers: what each request does. The daemon's main function passes a pipeline, a store and
-- a session manager that exist, so the tests for null pointers have no branch here.
pub mod Matching
pub mod Auth
pub mod World
pub mod Enroll
pub mod ListRemove
pub mod Test
