-- ===== src/Lzhuf.antt =====
-- Package lzhuf: the compression of messages.
pub mod Crc
pub mod Bits
pub mod Or
pub mod Put
pub mod Read
pub mod Tree
pub mod Coder
pub mod Position
pub mod Search
pub mod Writer
pub mod Reader
