-- ===== src/Hooks.antt =====
-- apps/trapchat/src/hooks: the state behind the views.
pub mod Links
pub mod Rooms
pub mod CallManager
pub mod KeyRotation
pub mod MediaTransfer
pub mod RoomKeys
pub mod Typing
pub mod WebrtcMesh
