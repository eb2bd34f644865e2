-- ===== src/Waker/Coordinator.antt =====
-- crates/nscale-waker/src/coordinator.rs: the shared state of `WakeCoordinator` and the operations
-- that wait for no one but the orchestrator. An `Arc<WakeState>` is a reference, a number below
-- `next`, into the family `cells`: two tasks may hold the same state after the map has dropped it.
use nomad_scale_to_zero.Prelude.{
  ℕ, suc, String, Bool, Option, none, some, put, remove, is_some, update, if◌then◌else◌,
}
use nomad_scale_to_zero.Core.Job.{JobId, Endpoint, JobRegistration, same_endpoint}
use nomad_scale_to_zero.Core.Error.{Result, ok, err}
use nomad_scale_to_zero.Waker.State.{WakeState, new_dormant, set_ready, set_dormant}

-- `permits` are the free ones of the semaphore, `wake_timeout` is in seconds.
pub record WakeCoordinator : Type 0 where
  pub jobs : String → Option ℕ
  pub cells : ℕ → WakeState
  pub next : ℕ
  pub permits : ℕ
  pub wake_timeout : ℕ
  pub endpoints : String → Option Endpoint

pub data EndpointRefresh : Type 0 where
  confirmed updated : Endpoint → EndpointRefresh
  missing : EndpointRefresh

unfoldable pub new : ℕ → ℕ → WakeCoordinator
new nomad_concurrency wake_timeout = record {
  jobs = λ _. none;
  cells = λ _. new_dormant;
  next = 0;
  permits = nomad_concurrency;
  wake_timeout = wake_timeout;
  endpoints = λ _. none;
}

-- `self.jobs.entry(key).or_insert_with(…)`: the reference, and the map after.
unfoldable pub entry : String → WakeCoordinator → ℕ
entry key c = elim (c.jobs key) [ some r ↦ r | none ↦ c.next ]

unfoldable pub or_insert : String → WakeCoordinator → WakeCoordinator
or_insert key c = elim (c.jobs key) [
  | some r ↦ c
  | none ↦ record c {
    jobs = put key c.next c.jobs;
    cells = update c.cells c.next new_dormant;
    next = suc c.next;
  }
]

abbrev pub with_cell : ℕ → WakeState → WakeCoordinator → WakeCoordinator
with_cell r cell c = record c { cells = update c.cells r cell }

-- The three accesses of `mark_dormant`, each atomic on its own.
abbrev pub forget_endpoint : String → WakeCoordinator → WakeCoordinator
forget_endpoint key c = record c { endpoints = remove key c.endpoints }

abbrev pub cache_endpoint : String → Endpoint → WakeCoordinator → WakeCoordinator
cache_endpoint key ep c = record c { endpoints = put key ep c.endpoints }

-- `if let Some(state) = self.jobs.get(key) { state.set_…() }`
abbrev pub mark : (WakeState → WakeState) → String → WakeCoordinator → WakeCoordinator
mark f key c = elim (c.jobs key) [ none ↦ c | some r ↦ with_cell r (f (c.cells r)) c ]

abbrev pub forget_job : String → WakeCoordinator → WakeCoordinator
forget_job key c = record c { jobs = remove key c.jobs }

unfoldable pub mark_dormant : JobId → WakeCoordinator → WakeCoordinator
unfolding set_dormant
mark_dormant job c = forget_job job (mark set_dormant job (forget_endpoint job c))

-- The same accesses as `mark_dormant`.
unfoldable pub invalidate : JobId → WakeCoordinator → WakeCoordinator
unfolding set_dormant
invalidate job c = forget_job job (mark set_dormant job (forget_endpoint job c))

-- `refresh_endpoint` after the orchestrator's answer.
unfoldable pub refresh_endpoint :
    JobRegistration
    → Endpoint
    → Result (Option Endpoint)
    → WakeCoordinator
    → Result EndpointRefresh × WakeCoordinator
unfolding set_ready set_dormant
refresh_endpoint reg current (err e) c = (err e, c)
refresh_endpoint reg current (ok (some ep)) c =
    let c' = mark set_ready reg.job_id (cache_endpoint reg.job_id ep c) in
    (ok (if same_endpoint ep current then confirmed ep else updated ep), c')
refresh_endpoint reg current (ok none) c =
    let c' = forget_job reg.job_id (mark set_dormant reg.job_id (forget_endpoint reg.job_id c)) in
    (ok missing, c')

unfoldable pub is_ready : JobId → WakeCoordinator → Bool
is_ready job c = is_some (c.endpoints job)
