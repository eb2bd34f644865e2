-- ===== src/Core/Services.antt =====
-- The components that others call, as their callers see them: a record of operations on the state
-- `W` of everything outside the caller. `Store`, `Waker`, `Scaler` and `Core.InFlight` implement
-- them.
use nomad_scale_to_zero.Prelude.{ℕ, Bool, Option, List, ltb}
use nomad_scale_to_zero.Core.Effect.{Exec}
use nomad_scale_to_zero.Core.Job.{JobId, Endpoint, JobRegistration}
use nomad_scale_to_zero.Waker.Coordinator.{EndpointRefresh}

pub record JobRegistry (W : Type 0) : Type 0 where
  pub register : JobRegistration → Exec W (Unit {0})
  pub deregister : JobId → Exec W (Unit {0})
  pub get : JobId → Exec W (Option JobRegistration)
  pub list_all : Exec W (List JobRegistration)

pub record Coordinator (W : Type 0) : Type 0 where
  pub ensure_running : JobRegistration → Exec W Endpoint
  pub refresh_endpoint : JobRegistration → Endpoint → Exec W EndpointRefresh
  pub mark_dormant : JobId → W → W

pub record InFlight (W : Type 0) : Type 0 where
  pub count : JobId → W → ℕ
  pub track : JobId → W → W
  pub release : JobId → W → W

abbrev pub has_in_flight : {W : Type 0} → InFlight W → JobId → W → Bool
has_in_flight f job w = ltb 0 (f.count job w)

pub record TrafficProbe (W : Type 0) : Type 0 where
  pub has_active_traffic : JobId → Exec W Bool
  pub clear_baseline : JobId → W → W
