-- ===== src/Runner.antt =====
-- runner.py: how a worker drains the queue, over the queue, the engine and the stored transactions.
pub mod State
pub mod Retries
pub mod Policy
pub mod Binding
pub mod Progress
pub mod Settle
pub mod Item
pub mod Loop
pub mod Lifecycle
pub mod Balance
pub mod Attempts
pub mod Released
pub mod Transitions
pub mod Contained
pub mod Checkpoints
mod Tests
