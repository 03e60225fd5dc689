-- ===== src/Ipc/SelectServer.antt =====
-- src/ipc/socket/socketsrv.c: the server that waits on several sockets with `select`.
mod Clients
pub mod Slots
pub mod Datagrams
pub mod Polling
pub mod Round
mod Tests
unfoldable pub use Clients.*
