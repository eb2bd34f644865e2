-- ===== src/Waker/Operations.antt =====
-- coordinator.rs: what the operations of the coordinator leave behind.
use nomad_scale_to_zero.Prelude.{
  ℕ, ◌≡◌, ◌≢◌, refl, true, false, Option, none, some, List, [], ◌∷◌, ◌++◌, arith, eq_iff,
  if◌then◌else◌,
}
use nomad_scale_to_zero.Core.Job.{JobId, Endpoint, JobRegistration, same_endpoint}
use nomad_scale_to_zero.Core.Error.{NscaleError, Result, ok, err}
use nomad_scale_to_zero.Waker.State.{WakeResult, ready, state_dormant, state_ready}
use nomad_scale_to_zero.Waker.Coordinator.{
  WakeCoordinator, confirmed, updated, missing, mark_dormant, invalidate, refresh_endpoint,
  is_ready,
}
use nomad_scale_to_zero.Waker.Tasks.{waiting, woke, broken, ended, fallen, failure}
use nomad_scale_to_zero.Waker.System.{System, run_wake}
use nomad_scale_to_zero.Waker.Claims.{status}

-- After `mark_dormant` on a job that has a wake state, the job has no cached endpoint and no wake
-- state, and the state that it had is DORMANT for the tasks that still hold it, while every other job
-- keeps its endpoint and its wake state.
pub mark_dormant_resets :
    (job other : JobId) (r : ℕ) (c : WakeCoordinator)
    → c.jobs job ≡ some r
    → other ≢ job
    → (is_ready job (mark_dormant job c) ≡ false)
      × ((mark_dormant job c).jobs job ≡ none)
      × (((mark_dormant job c).cells r).status ≡ state_dormant)
      × ((mark_dormant job c).endpoints other ≡ c.endpoints other)
      × ((mark_dormant job c).jobs other ≡ c.jobs other)
unfolding mark_dormant is_ready
mark_dormant_resets job other r c h d = (
  ground (arith, eq_iff job job),
  ground (arith, eq_iff job job),
  ground arith,
  ground (arith, eq_iff job other),
  ground (arith, eq_iff job other),
)

-- What a refresh answers and leaves, by the orchestrator's answer.
abbrev pub Refreshed :
    JobRegistration → Endpoint → Result (Option Endpoint) → WakeCoordinator → Type 0
Refreshed reg current (err e) c = refresh_endpoint reg current (err e) c ≡ (err e, c)
Refreshed reg current (ok none) c =
    refresh_endpoint reg current (ok none) c ≡ (ok missing, invalidate reg.job_id c)
Refreshed reg current (ok (some ep)) c =
    ((refresh_endpoint reg current (ok (some ep)) c).0
      ≡ ok (if same_endpoint ep current then confirmed current else updated ep))
    × ((refresh_endpoint reg current (ok (some ep)) c).1.endpoints reg.job_id ≡ some ep)
    × ((refresh_endpoint reg current (ok (some ep)) c).1.jobs ≡ c.jobs)

same_endpoint-eq : (a b : Endpoint) → same_endpoint a b ≡ true → a ≡ b
same_endpoint-eq a b h = ground (arith, eq_iff a.host b.host)

-- The three outcomes of a refresh: a failed query changes nothing; with no endpoint the job is left
-- as `invalidate` leaves it; an endpoint is cached, the map of wake states is kept, and the caller
-- learns that its endpoint is confirmed when the new one equals it, and else the new one.
pub refresh_endpoint_cases :
    (reg : JobRegistration) (current : Endpoint) (a : Result (Option Endpoint))
    (c : WakeCoordinator)
    → Refreshed reg current a c
unfolding refresh_endpoint invalidate
refresh_endpoint_cases reg current (err x) c = refl
refresh_endpoint_cases reg current (ok none) c = refl
refresh_endpoint_cases reg current (ok (some ep)) c = (
  ground (arith, same_endpoint-eq ep current),
  ground (arith, eq_iff reg.job_id reg.job_id),
  ground arith,
)

-- The three accesses of a wake task after success, one after the other: the endpoint is cached, the
-- state is READY, a call that waits on the state has the endpoint as its newest message, and the task
-- has ended.
pub wake_publishes :
    (s : System) (i j r : ℕ) (reg x : JobRegistration) (ep : Endpoint) (box : List WakeResult)
    → s.wake i ≡ woke reg r ep
    → s.request j ≡ waiting x r box
    → let t = run_wake i (run_wake i (run_wake i s)) in
      (t.coordinator.endpoints reg.job_id ≡ some ep)
      × (status t r ≡ state_ready)
      × (t.request j ≡ waiting x r (box ++ ready ep ∷ []))
      × (t.wake i ≡ ended reg r)
unfolding run_wake
wake_publishes s i j r reg x ep box e h =
    (ground (arith, eq_iff reg.job_id reg.job_id), ground arith, ground arith, ground arith)

-- The three accesses of a wake task after a failure: the map has dropped the job's entry, so that the
-- next call makes a new one, the state is DORMANT, and a call that waits on it has the failure as its
-- newest message.
pub failed_wake_resets :
    (s : System) (i j r : ℕ) (reg y : JobRegistration) (x : NscaleError) (box : List WakeResult)
    → s.wake i ≡ broken reg r x
    → s.request j ≡ waiting y r box
    → let t = run_wake i (run_wake i (run_wake i s)) in
      (t.coordinator.jobs reg.job_id ≡ none)
      × (status t r ≡ state_dormant)
      × (t.request j ≡ waiting y r (box ++ failure x ∷ []))
      × (t.wake i ≡ fallen reg)
unfolding run_wake
failed_wake_resets s i j r reg y x box e h =
    (ground (arith, eq_iff reg.job_id reg.job_id), ground arith, ground arith, ground arith)
