-- ===== src/Proxy.antt =====
-- crates/nscale-proxy: the HTTP proxy that wakes a job and relays a request to it.
pub mod Forward
pub mod Heartbeat
pub mod Handler
pub mod Forwarding
pub mod Middleware
