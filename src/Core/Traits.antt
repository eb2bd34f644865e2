-- ===== src/Core/Traits.antt =====
-- crates/nscale-core/src/traits.rs: the interfaces to the orchestrator, service discovery, activity
-- store, missing-job tracker and durable registry, over a state `W` of what lies behind them.
use nomad_scale_to_zero.Prelude.{ℕ, String, Bool, Option, List}
use nomad_scale_to_zero.Core.Effect.{Exec}
use nomad_scale_to_zero.Core.Job.{JobId, ServiceName, Endpoint, JobRegistration}

pub record Orchestrator (W : Type 0) : Type 0 where
  pub scale_up : JobId → String → ℕ → Exec W (Unit {0})
  pub scale_down : JobId → String → Exec W (Unit {0})
  pub get_job_count : JobId → String → Exec W ℕ
  pub get_healthy_endpoint : JobId → Exec W (Option Endpoint)

-- The timeout of `wait_for_healthy` is in seconds.
pub record ServiceDiscovery (W : Type 0) : Type 0 where
  pub register_fallback : ServiceName → Endpoint → Exec W (Unit {0})
  pub deregister_fallback : ServiceName → Exec W (Unit {0})
  pub wait_for_healthy : ServiceName → ℕ → Exec W Endpoint

pub record ActivityStore (W : Type 0) : Type 0 where
  pub record_activity : JobId → Exec W (Unit {0})
  pub get_idle_jobs : ℕ → Exec W (List JobId)
  pub has_activity : JobId → Exec W Bool
  pub try_acquire_lock : String → ℕ → Exec W Bool
  pub release_lock : String → Exec W (Unit {0})
  pub remove_activity : JobId → Exec W (Unit {0})

pub record MissingJobTracker (W : Type 0) : Type 0 where
  pub increment_not_found : JobId → Exec W ℕ
  pub clear_not_found : JobId → Exec W (Unit {0})

-- A change that a durable registry reports.
pub data RegistrationEvent : Type 0 where
  upsert remove : JobRegistration → RegistrationEvent

-- The stream that `watch_registrations` answers with is the list of what it gives.
pub record DurableRegistry (W : Type 0) : Type 0 where
  pub store_registration : JobRegistration → Exec W (Unit {0})
  pub remove_registration : JobId → Exec W (Unit {0})
  pub get_by_job_id : JobId → Exec W (Option JobRegistration)
  pub get_by_service_name : ServiceName → Exec W (Option JobRegistration)
  pub list_all : Exec W (List JobRegistration)
  pub watch_registrations : Exec W (List RegistrationEvent)
