-- ===== src/Go.antt =====
-- What the program uses of Go's standard library, written from its documentation.
pub mod Path
pub mod Map
pub mod Listing
pub mod Decimal
pub mod Strings
pub mod Hex
pub mod Base32
