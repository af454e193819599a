-- ===== src/Sock.antt =====
-- The socket interface of bsd/lib/lazybsd_socket.c.
pub mod Process
pub mod Calls
pub mod Message
pub mod Messages
pub mod Msghdr
pub mod InPlace
pub mod Words
mod CallExamples
pub mod Peer
pub mod Protocol
pub mod Names
pub mod Address
pub mod Options
pub mod Ioctl
mod Examples
