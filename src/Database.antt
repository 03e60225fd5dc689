-- ===== src/Database.antt =====
-- inc/database.h and src/database.c: the movies, the tickets sold, the file that holds them.
mod Types
mod Layout
mod Tickets
pub mod Valid
pub mod Lookup
pub mod BoxOffice
pub mod Sales
pub mod Owner
pub mod Buying
pub mod ZeroTicket
pub mod Pointer
pub mod Find
pub mod File
pub mod Sized
pub mod Samples
mod Tests
unfoldable pub use Types.*
unfoldable pub use Layout.*
unfoldable pub use Tickets.*
