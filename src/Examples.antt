-- ===== src/Examples.antt =====
-- Tests, and the theorems at concrete inputs.
mod Manager
mod Service
mod Socket
mod Media
mod App
mod Crypto
mod Webrtc
mod Hooks
mod Peers
mod Session
