-- ===== src/Ipc/Shmem.antt =====
-- src/ipc/shmem.c: one message in shared memory, and three semaphores.
mod Protocol
pub mod Overwrite
pub mod Alone
pub mod Segments
pub mod Events
pub mod Sets
pub mod Relisten
mod Tests
unfoldable pub use Protocol.*
