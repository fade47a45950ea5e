-- ===== src/App.antt =====
-- apps/trapchat/src/App.jsx: what the page does with the messages that come, with its rooms and with
-- what is typed.
pub mod Chat
pub mod Inbox
pub mod Names
pub mod Outbox
pub mod Remaining
pub mod Session
pub mod Status
