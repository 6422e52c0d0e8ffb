-- ===== src/Libc.antt =====
-- libraries/libc: path names, blocks of memory and strings.
pub mod Libgen
pub mod Memory
pub mod Strings
pub mod Numbers
pub mod Formats
pub mod Itoa
pub mod Examples
