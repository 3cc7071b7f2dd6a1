-- ===== src/Sdk.antt =====
-- The protocol package in web-client/caladon/src.
pub mod Text
pub mod Bytes
pub mod Envelope
pub mod Quote
pub mod Collateral
pub mod Protocol
pub mod Session
pub mod Client
pub mod Chat
