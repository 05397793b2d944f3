-- ===== src/Logic.antt =====
-- internal/logic: the unread counts, and the messages to the subscribers.
pub mod Unread
pub mod Sender
