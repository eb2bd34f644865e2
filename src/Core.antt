-- ===== src/Core.antt =====
-- crates/nscale-core: the shared data model, errors, service interfaces and the in-flight tracker.
pub mod Job
pub mod Error
pub mod Effect
pub mod Traits
pub mod Services
pub mod InFlight
pub mod Config
pub mod Samples
