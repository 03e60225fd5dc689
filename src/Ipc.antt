-- ===== src/Ipc.antt =====
-- src/ipc.c and inc/ipc.h: one of the transports below is compiled in.
pub mod Messages
pub mod Clients
pub mod Transport
pub mod Addresses
pub mod Filesig
pub mod Fifo
pub mod Mqueues
pub mod Shmem
pub mod Shm
pub mod Sockets
pub mod SelectServer
pub mod Pipes
