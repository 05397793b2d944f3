-- ===== src/Service.antt =====
-- internal/service: sending, status changes and the inbox.
pub mod Sender
pub mod Status
pub mod Inbox
pub mod Tasks
