-- ===== src/Ipc/Addresses.antt =====
-- The addresses of src/ipc/filesig.c and src/ipc/fifo.c: a directory and, in it, a file for each process.
mod Endpoints
pub mod Inbox
mod Tests
unfoldable pub use Endpoints.*
