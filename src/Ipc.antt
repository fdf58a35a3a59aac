-- ===== src/Ipc.antt =====
-- common/ipc.hpp and common/ipc.cpp: whole messages over a stream socket.
-- `Ipc.Stream` has the loops over read and write, `Ipc.Frame` the length-prefixed frames, `Ipc.Socket`
-- the address and the timeouts, `Ipc.Listen` the two ways to a socket; the others
-- are proofs.
pub mod Stream
pub mod Frame
pub mod Socket
pub mod Listen
