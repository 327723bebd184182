-- ===== src/Fbb/Session.antt =====
-- fbb/wl2k.go, fbb/handshake.go and fbb/b2f.go: a session. The bytes that the other side sends are the list
-- `rd`, those that this side has written are `out`.
pub mod Defs
pub mod Steps
pub mod Kept
pub mod Handshake
pub mod Outbound
pub mod Inbound
pub mod Exchange
mod Tests
