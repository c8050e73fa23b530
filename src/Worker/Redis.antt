-- ===== src/Worker/Redis.antt =====
-- internal/worker/redis_queue.go: the queue of jobs in Redis.
pub mod Decimal
pub mod Reader
pub mod Wire
pub mod RoundTrip
pub mod Partial
pub mod Queue
mod Examples
