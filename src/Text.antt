-- ===== src/Text.antt =====
-- Rust's `str` and `char` operations that the program uses. A text is the list of its code points;
-- `utf8` gives the bytes that `as_bytes` and `len` speak of. The receiver is the first argument.
mod Laws
mod Numbers
pub mod Decimal
pub mod Suffix
unfoldable pub use Defs.*
pub use Laws.*
unfoldable pub use Numbers.*
mod Defs
