-- ===== src/Go.antt =====
-- What the program uses of Go's standard library: hash/crc32, sort, strconv,
-- strings and net.
pub mod Crc
pub mod Sort
pub mod Search
pub mod Float
pub mod Text
pub mod Net
pub mod Atoi
pub mod Itoa
pub mod Hex
pub mod Bytes
