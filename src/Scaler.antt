-- ===== src/Scaler.antt =====
-- crates/nscale-scaler: the controller that scales idle jobs to zero, the probe of Traefik's traffic,
-- and the processor of Nomad's events.
pub mod Controller
pub mod EventProcessor
pub mod TrafficProbe
