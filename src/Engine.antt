-- ===== src/Engine.antt =====
-- engine.py and _kernel.py: running the steps of a transaction in order, with retries.
-- What the engine calls and this repository does not hold (a step's own code, the clock, the
-- checkpoint callback, the transition sink, screen capture) is a parameter: an `Environment` over a
-- state `W` of the outside world.
pub mod World
pub mod Transitions
pub mod Failures
pub mod Pass
pub mod Run
pub mod Effects
pub mod Rounds
pub mod Passes
pub mod Retries
pub mod Runs
pub mod Audit
pub mod Settled
pub mod Untouched
pub mod Reruns
pub mod Outcome
pub mod Retrying
pub mod Exhausted
mod Tests
