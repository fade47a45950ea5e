-- ===== src/Socket.antt =====
-- apps/trapchat/src/socket: the browser's connection to the gateway.
pub mod Client
pub mod Listeners
pub mod State
