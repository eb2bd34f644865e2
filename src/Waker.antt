-- ===== src/Waker.antt =====
-- crates/nscale-waker: the coordinator that wakes dormant jobs and lets concurrent requests share
-- one wake-up.
pub mod State
pub mod Coordinator
pub mod Tasks
pub mod System
pub mod Claims
pub mod Invariant
pub mod Coalescing
pub mod Delivery
pub mod LateSubscriber
pub mod Operations
pub mod Permits
pub mod Rewake
pub mod Completion
pub mod Progress
pub mod Tests
