-- ===== src/Queue.antt =====
-- queue.py and _queue_retry.py: the work queue, its leases and its retries.
-- Each operation is a write transaction of the database, so an error leaves the store as it was.
pub mod Rows
pub mod Retry
pub mod Claims
pub mod Delivery
pub mod Agreement
pub mod Consistency
pub mod DeliveryConsistency
pub mod Fencing
pub mod Steps
pub mod Leases
pub mod Attempts
pub mod Audit
pub mod Fenced
pub mod Keys
pub mod Serving
pub mod Waits
pub mod Fifo
pub mod Disposal
mod Tests
pub mod Reading
pub mod Pages
pub mod Reclaiming
