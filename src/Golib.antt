-- ===== src/Golib.antt =====
-- What the program uses of Go's standard library on strings, numbers and encodings.
pub mod Bits
pub mod Strings
pub mod Strconv
pub mod Hex
pub mod Base64
pub mod Url
pub mod Net
