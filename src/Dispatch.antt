-- ===== src/Dispatch.antt =====
-- internal/dispatch: messages, the brokers and the dispatcher.
pub mod Message
pub mod Broker
pub mod Cluster
pub mod Dispatcher
pub mod Isolation
pub mod Tests
