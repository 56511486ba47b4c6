-- ===== src/Resources.antt =====
-- internal/services/resources: the services behind the resource lists.
pub mod Cache
pub mod Coalescer
pub mod Health
pub mod Retry
pub mod Scheduler
pub mod Watch
pub mod Diff
pub mod Listing
