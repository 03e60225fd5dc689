-- ===== src/Ipc/Shm.antt =====
-- src/ipc/shmposix.c and src/ipc/shmsystemv.c: one message in shared memory, handed round by four
-- semaphores. The two files have the same `ipc_send` and `ipc_recv`.
mod Ring
pub mod Turn
pub mod Safety
pub mod Posix
pub mod Systemv
pub mod Restart
mod Tests
unfoldable pub use Ring.*
