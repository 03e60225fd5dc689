-- ===== src/Client.antt =====
-- src/exe/client.c: the command line, and what is printed for the response.
mod Main
pub mod Session
pub mod Buy
pub mod Get
pub mod Lookup
pub mod Listing
pub mod Purchase
pub mod Overrun
pub mod Samples
mod Tests
unfoldable pub use Main.*
