-- ===== src/Repository.antt =====
-- internal/repository: the tables and the Redis cache.
pub mod Query
pub mod Status
pub mod Record
pub mod Watermark
pub mod UnreadDb
pub mod UnreadCache
