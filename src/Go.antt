-- ===== src/Go.antt =====
-- What the source uses of the Go standard library on byte strings: path/filepath (FilePath),
-- unicode/utf8 (Utf8), strings (Strings, Cut), strconv (Strconv) and the time layout of package
-- sanitize (Clock).
pub mod Strings
pub mod Utf8
pub mod FilePath
pub mod Paths
pub mod Clock
pub mod Cut
pub mod Strconv
pub mod Varint
