-- ===== src/Shim.antt =====
-- The stateless shim of web-client/shim/src.
pub mod Config
pub mod Relay
pub mod Boot
pub mod Server
pub mod Front
pub mod Middleware
pub mod App
