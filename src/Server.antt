-- ===== src/Server.antt =====
-- src/exe/server.c: the event loop.
mod Loop
pub mod Rounds
pub mod Total
pub mod Unique
pub mod Distinct
pub mod Sizes
mod Tests
unfoldable pub use Loop.*
