-- ===== src/Ipc/Sockets.antt =====
-- src/ipc/sockets.c: a connection for each client, and its descriptor as the client's address.
mod Streams
pub mod Connection
pub mod Ports
mod Tests
unfoldable pub use Streams.*
