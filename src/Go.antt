-- ===== src/Go.antt =====
-- What the program uses of Go and its standard library: results, byte strings, numbers in text.
pub mod Result
pub mod Strings
pub mod Strconv
pub mod Utf8
pub mod Mime
pub mod Path
pub mod Sort
pub mod Textproto
