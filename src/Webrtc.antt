-- ===== src/Webrtc.antt =====
-- apps/trapchat/src/lib/webrtc.js: the connections between peers.
pub mod Peer
pub mod Mesh
pub mod Tracks
