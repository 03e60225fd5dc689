-- ===== src/Bytes.antt =====
-- Integers in memory: little-endian bytes, as the sources' structures hold and send them.
mod Memory
mod RoundTrip
unfoldable pub use Memory.*
unfoldable pub use RoundTrip.*
