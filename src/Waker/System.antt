-- ===== src/Waker/System.antt =====
-- crates/nscale-waker/src/coordinator.rs as a transition system: any number of calls of
-- `ensure_running`, each numbered, with the wake task that a call may spawn. A step is one access of
-- one task, or one answer of Nomad, Consul, the clock or the client.
use nomad_scale_to_zero.Prelude.{
  ℕ, ◌+◌, ◌-◌, ◌<◌, ◌≡◌, true, false, Option, List, [], ◌∷◌, String, update,
}
use nomad_scale_to_zero.Core.Job.{Endpoint, JobRegistration}
use nomad_scale_to_zero.Core.Error.{NscaleError, wake_timeout, wake_abandoned, Result, err}
use nomad_scale_to_zero.Waker.State.{WakeResult, set_ready, set_dormant}
use nomad_scale_to_zero.Waker.Coordinator.{
  WakeCoordinator, new, cache_endpoint, forget_endpoint, mark, forget_job,
}
use nomad_scale_to_zero.Waker.Tasks.{
  Request, idle, gone, fast, asking, spawning, waiting, returned, Wake, unborn, acquiring, scaling,
  polling, woke, broken, advance, answer, receive, publish, deliver, listens, awaits,
}

pub record System : Type 0 where
  pub coordinator : WakeCoordinator
  pub request : ℕ → Request
  pub wake : ℕ → Wake

unfoldable pub init : ℕ → ℕ → System
unfolding new
init nomad_concurrency secs = record {
  coordinator = new nomad_concurrency secs;
  request = λ _. idle;
  wake = λ _. unborn;
}

abbrev pub set_request : ℕ → Request → System → System
set_request i q s = record s { request = update s.request i q }

abbrev pub set_wake : ℕ → Wake → System → System
set_wake i k s = record s { wake = update s.wake i k }

abbrev pub set_permits : ℕ → System → System
set_permits n s = record s { coordinator = record s.coordinator { permits = n } }

-- One access of request task `i`.
unfoldable pub run_request : ℕ → System → System
unfolding advance
run_request i s = record s {
  coordinator = (advance s.coordinator (s.request i)).0;
  request = update s.request i (advance s.coordinator (s.request i)).1;
}

-- One access of wake task `i`.
unfoldable pub run_wake : ℕ → System → System
unfolding publish deliver
run_wake i s = record {
  coordinator = (publish s.coordinator (s.wake i)).0;
  request = λ j. deliver (publish s.coordinator (s.wake i)).2 (s.request j);
  wake = update s.wake i (publish s.coordinator (s.wake i)).1;
}

-- The steps of runs in which no wake task fails.
pub data Step (s : System) : System → Type 0 where
  called :
      (i : ℕ) (reg : JobRegistration) → s.request i ≡ idle → Step s (set_request i (fast reg) s)
  accessed : (i : ℕ) → Step s (run_request i s)
  answered :
      (i : ℕ) (reg : JobRegistration) (a : Result (Option Endpoint))
      → s.request i ≡ asking reg
      → Step s (set_request i (answer reg a) s)
  received :
      (i : ℕ) (reg : JobRegistration) (r : ℕ) (m : WakeResult) (box : List WakeResult)
      → s.request i ≡ waiting reg r (m ∷ box)
      → Step s (set_request i (returned (receive reg m box)) s)
  timed_out :
      (i : ℕ) (reg : JobRegistration) (r : ℕ)
      → s.request i ≡ waiting reg r []
      → Step s
          (set_request i (returned (err (wake_timeout reg.job_id s.coordinator.wake_timeout))) s)
  dropped : (i : ℕ) → awaits (s.request i) ≡ true → Step s (set_request i gone s)
  spawned :
      (i : ℕ) (reg : JobRegistration) (r : ℕ) (box : List WakeResult)
      → s.request i ≡ spawning reg r box
      → s.wake i ≡ unborn
      → Step s (set_wake i (acquiring reg r) (set_request i (waiting reg r box) s))
  acquired :
      (i : ℕ) (reg : JobRegistration) (r : ℕ)
      → s.wake i ≡ acquiring reg r
      → 0 < s.coordinator.permits
      → Step s (set_wake i (scaling reg r) (set_permits (s.coordinator.permits - 1) s))
  scaled :
      (i : ℕ) (reg : JobRegistration) (r : ℕ)
      → s.wake i ≡ scaling reg r
      → Step s (set_wake i (polling reg r) (set_permits (s.coordinator.permits + 1) s))
  healthy :
      (i : ℕ) (reg : JobRegistration) (r : ℕ) (ep : Endpoint)
      → s.wake i ≡ polling reg r
      → Step s (set_wake i (woke reg r ep) s)
  published : (i : ℕ) → Step s (run_wake i s)

-- The answers on which a wake task fails.
pub data Failure (s : System) : System → Type 0 where
  refused :
      (i : ℕ) (reg : JobRegistration) (r : ℕ) (e : NscaleError)
      → s.wake i ≡ scaling reg r
      → Failure s (set_wake i (broken reg r e) (set_permits (s.coordinator.permits + 1) s))
  unhealthy :
      (i : ℕ) (reg : JobRegistration) (r : ℕ) (e : NscaleError)
      → s.wake i ≡ polling reg r
      → Failure s (set_wake i (broken reg r e) s)
  abandoned :
      (i : ℕ) (reg : JobRegistration) (r : ℕ)
      → s.wake i ≡ polling reg r
      → ((j : ℕ) → listens r (s.request j) ≡ false)
      → Failure s (set_wake i (broken reg r (wake_abandoned reg.job_id)) s)

abbrev pub edit : (WakeCoordinator → WakeCoordinator) → System → System
edit f s = record s { coordinator = f s.coordinator }

-- The accesses of a `refresh_endpoint` that has found an endpoint, in any order.
pub data Refresh (s : System) : System → Type 0 where
  endpoint_cached : (key : String) (ep : Endpoint) → Refresh s (edit (cache_endpoint key ep) s)
  marked_ready : (key : String) → Refresh s (edit (mark set_ready key) s)

-- Those of `mark_dormant`, `invalidate` and a `refresh_endpoint` that has found none.
pub data Reset (s : System) : System → Type 0 where
  endpoint_forgotten : (key : String) → Reset s (edit (forget_endpoint key) s)
  marked_dormant : (key : String) → Reset s (edit (mark set_dormant key) s)
  job_forgotten : (key : String) → Reset s (edit (forget_job key) s)

-- Runs in which no wake fails and nothing is reset, and those in which wakes may fail.
pub data Calm (s : System) : System → Type 0 where
  here : Calm s s
  next : {t u : System} → Calm s t → Step t u → Calm s u
  refreshed : {t u : System} → Calm s t → Refresh t u → Calm s u

pub data Reach (s : System) : System → Type 0 where
  here : Reach s s
  next : {t u : System} → Reach s t → Step t u → Reach s u
  fail : {t u : System} → Reach s t → Failure t u → Reach s u
  refreshed : {t u : System} → Reach s t → Refresh t u → Reach s u

-- All runs.
pub data Run (s : System) : System → Type 0 where
  here : Run s s
  next : {t u : System} → Run s t → Step t u → Run s u
  fail : {t u : System} → Run s t → Failure t u → Run s u
  refreshed : {t u : System} → Run s t → Refresh t u → Run s u
  discarded : {t u : System} → Run s t → Reset t u → Run s u
