-- ===== src/Pool.antt =====
-- pkg/pool: the connection pool.
pub mod Channel
pub mod Group
pub mod Manager
pub mod Connections
pub mod Links
pub mod Lookup
pub mod Tidy
pub mod Neat
pub mod Range
pub mod Once
pub mod Online
pub mod Tests
pub mod Closing
