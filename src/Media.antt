-- ===== src/Media.antt =====
-- apps/trapchat/src/lib/media.js: how files are sent in chunks and put together again.
pub mod Mime
pub mod FileName
pub mod Assembler
pub mod Transfer
pub mod Send
