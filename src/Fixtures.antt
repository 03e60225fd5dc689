-- ===== src/Fixtures.antt =====
-- src/fixtures.c and src/exe/reset.c: building the database file from a text with a movie a line.
mod Reading
mod Parse
pub mod Reset
mod Tests
unfoldable pub use Reading.*
unfoldable pub use Parse.*
