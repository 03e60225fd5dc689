-- ===== src/Ipc/Fifo.antt =====
-- src/ipc/fifo.c: messages through named pipes, with a semaphore for the writers of each.
mod Pipe
mod Writers
pub mod Order
pub mod Whole
pub mod Mailboxes
pub mod Locks
pub mod Delivery
mod Tests
unfoldable pub use Pipe.*
unfoldable pub use Writers.*
