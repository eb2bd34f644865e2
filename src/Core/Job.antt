-- ===== src/Core/Job.antt =====
-- crates/nscale-core/src/job.rs: job and service names, endpoints, registrations, job states.
-- The newtypes `JobId` and `ServiceName` are the texts that they wrap.
use nomad_scale_to_zero.Prelude.{ℕ, String, Bool, true, false, ◌==◌, ◌&&◌, nat_eq}
use nomad_scale_to_zero.Prelude.Text.{append, show}

abbrev pub JobId : Type 0
JobId = String

abbrev pub ServiceName : Type 0
ServiceName = String

pub record Endpoint : Type 0 where
  pub host : String
  pub port : ℕ

-- `Endpoint::address` and `Display for Endpoint`
pub address : Endpoint → String
address e = append e.host (append ":" (show e.port))

pub base_url : String → Endpoint → String
base_url scheme e = append scheme (append "://" (append e.host (append ":" (show e.port))))

pub record JobRegistration : Type 0 where
  pub job_id : JobId
  pub service_name : ServiceName
  pub nomad_group : String

-- An `Instant` is a number of ticks.
pub data JobState : Type 0 where
  dormant : JobState
  waking : ℕ → JobState
  ready : Endpoint → JobState
  draining : ℕ → JobState

pub is_dormant : JobState → Bool
is_dormant dormant = true
is_dormant _ = false

pub is_waking : JobState → Bool
is_waking (waking _) = true
is_waking _ = false

pub is_ready : JobState → Bool
is_ready (ready _) = true
is_ready _ = false

pub is_draining : JobState → Bool
is_draining (draining _) = true
is_draining _ = false

-- `endpoint.host == current.host && endpoint.port == current.port`
abbrev pub same_endpoint : Endpoint → Endpoint → Bool
same_endpoint a b = (a.host == b.host) && nat_eq a.port b.port
