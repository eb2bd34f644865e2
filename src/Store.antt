-- ===== src/Store.antt =====
-- crates/nscale-store: the registry of jobs, the activity store and the tracker of missing jobs, over
-- Redis and etcd.
pub mod Redis
pub mod Registry
pub mod Activity
pub mod AutoDeregister
pub mod Memory
