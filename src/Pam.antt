-- ===== src/Pam.antt =====
-- pam/pam_chowdy.c: the PAM module, a client of the daemon's auth socket. A C string is the list of
-- its bytes before the terminating zero.
pub mod Prefix
pub mod Options
pub mod Scan
pub mod Wire
pub mod Connect
pub mod Request
pub mod Login
