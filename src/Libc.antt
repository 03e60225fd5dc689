-- ===== src/Libc.antt =====
-- What the sources use of the C library's strings. A `char *` is the list of its bytes before the
-- terminating NUL, a `char[n]` array is a list of `n` bytes.
mod Strings
mod Laws
mod Tokens
mod Decimal
mod Paths
unfoldable pub use Strings.*
unfoldable pub use Decimal.*
unfoldable pub use Paths.*
unfoldable pub use Laws.*
unfoldable pub use Tokens.*
