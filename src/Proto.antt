-- ===== src/Proto.antt =====
-- proto/messages.hpp: the messages between the clients and the daemon.
pub mod Reason
pub mod Requests
pub mod Responses
