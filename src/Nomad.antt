-- ===== src/Nomad.antt =====
-- crates/nscale-nomad: the client of Nomad's HTTP API, and the tags that submitted jobs are given.
pub mod JobMutator
pub mod Models
pub mod Client
pub mod Events
