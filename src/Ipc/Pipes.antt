-- ===== src/Ipc/Pipes.antt =====
-- src/ipc/Pipes: an earlier server and client over named pipes, which the Makefile does not build.
pub mod Service
pub mod Menu
pub mod Echo
pub mod Mirror
mod Tests
