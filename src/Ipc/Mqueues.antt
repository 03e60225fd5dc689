-- ===== src/Ipc/Mqueues.antt =====
-- src/ipc/mqueues.c: one System V message queue, in which the type of an item is its recipient.
mod Items
pub mod Posting
pub mod Mailboxes
pub mod Process
pub mod Queues
mod Tests
unfoldable pub use Items.*
