-- ===== src/System.antt =====
-- The programs over a transport: src/exe/server.c and src/exe/client.c, and src/exe/test.c.
pub mod Serving
pub mod Rounds
pub mod Session
pub mod Programs
pub mod Script
pub mod Exchanges
pub mod ScriptRun
mod Tests
pub mod Oversize
pub mod Interleaved
pub mod Mail
pub mod OwnReply
pub mod Runs
pub mod Pending
pub mod Progress
