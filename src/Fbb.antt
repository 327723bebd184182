-- ===== src/Fbb.antt =====
-- Package fbb: the B2F forwarding protocol.
pub mod Error
pub mod Line
pub mod Address
pub mod Header
pub mod Body
pub mod Message
pub mod Handshake
pub mod Proposal
pub mod Sorting
pub mod Answer
pub mod Transfer
pub mod Block
pub mod Delivery
pub mod Session
