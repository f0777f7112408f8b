-- ===== src/Go.antt =====
-- What the program uses of Go: texts, durations and maps.
pub mod Text
pub mod Strings
pub mod Duration
pub mod Map
pub mod Hex
pub mod TextLaws
pub mod Sort
pub mod Bytes
