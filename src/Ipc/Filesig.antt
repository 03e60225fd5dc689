-- ===== src/Ipc/Filesig.antt =====
-- src/ipc/filesig.c: messages through inbox files and a signal.
mod Inbox
pub mod Stack
pub mod Race
pub mod Wake
pub mod Settle
pub mod Mailboxes
mod Tests
unfoldable pub use Inbox.*
