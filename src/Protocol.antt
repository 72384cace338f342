-- ===== src/Protocol.antt =====
-- The Hotline wire protocol (src/hotline/protocol).
pub mod Constants
pub mod FieldList
pub mod Transaction
pub mod Handshake
pub mod AccessMask
pub mod Payload
pub mod Tracker
pub mod Transfer
pub mod Cipher
pub mod Hope
pub mod Archive
