-- ===== src/Waker/Tasks.antt =====
-- crates/nscale-waker/src/coordinator.rs: `ensure_running` as the steps of one request task and
-- `run_wake_task` with the match on its result as the steps of the spawned one. A step is one access
-- to shared state; what an await answers is chosen outside (Waker/System). A receiver of the
-- broadcast channel is its mailbox, oldest message first.
use nomad_scale_to_zero.Prelude.{
  ℕ, Bool, true, false, Option, none, some, List, [], ◌∷◌, ◌++◌, length, ltb, nat_eq, put, remove,
  if◌then◌else◌,
}
use nomad_scale_to_zero.Prelude.Text.{append, show}
use nomad_scale_to_zero.Core.Job.{Endpoint, JobRegistration}
use nomad_scale_to_zero.Core.Error.{
  NscaleError, nomad, job_not_ready, wake_abandoned, wake_timeout, to_string, Result, ok, err,
}
use nomad_scale_to_zero.Core.Error
use nomad_scale_to_zero.Waker.State.{
  WakeResult, ready, job_not_found, failed, cancelled, state_dormant, state_waking, state_ready,
  try_start_wake, set_ready, set_dormant,
}
use nomad_scale_to_zero.Waker.Coordinator.{WakeCoordinator, entry, or_insert, with_cell}

-- Where a call of `ensure_running` stands. `check` holds the reference that the entry gave;
-- `subscribing` has loaded WAKING and `racing` DORMANT; `spawning` has subscribed and not spawned.
pub data Request : Type 0 where
  idle gone : Request
  fast enter recheck asking : JobRegistration → Request
  check subscribing racing starting : JobRegistration → ℕ → Request
  spawning waiting : JobRegistration → ℕ → List WakeResult → Request
  caching : JobRegistration → Endpoint → Request
  returned : Result Endpoint → Request

-- Where a wake task stands: `scaling` holds a permit; `woke`, `inserted` and `readied` come before
-- the three accesses after success, `broken`, `reset` and `told` before those after a failure.
pub data Wake : Type 0 where
  unborn : Wake
  acquiring scaling polling ended told : JobRegistration → ℕ → Wake
  woke inserted readied : JobRegistration → ℕ → Endpoint → Wake
  broken reset : JobRegistration → ℕ → NscaleError → Wake
  fallen : JobRegistration → Wake

-- The match on the loaded status.
unfoldable pub dispatch : JobRegistration → ℕ → ℕ → Request
dispatch reg r current =
    if nat_eq current state_ready
    then recheck reg
    else if nat_eq current state_waking
    then subscribing reg r
    else if nat_eq current state_dormant
    then racing reg r
    else returned (
        err (
          job_not_ready
            (append "unexpected state " (append (show current) (append " for job " reg.job_id)))))

-- One access of a request task; a task that awaits does not move.
unfoldable pub advance : WakeCoordinator → Request → WakeCoordinator × Request
unfolding dispatch entry or_insert try_start_wake
advance c (fast reg) =
    (c, elim (c.endpoints reg.job_id) [ some ep ↦ returned (ok ep) | none ↦ enter reg ])
advance c (enter reg) = (or_insert reg.job_id c, check reg (entry reg.job_id c))
advance c (check reg r) = (c, dispatch reg r (c.cells r).status)
advance c (recheck reg) =
    (c, elim (c.endpoints reg.job_id) [ some ep ↦ returned (ok ep) | none ↦ asking reg ])
advance c (subscribing reg r) = (c, waiting reg r [])
advance c (racing reg r) = (
  with_cell r (try_start_wake (c.cells r)).1 c,
  if (try_start_wake (c.cells r)).0 then starting reg r else enter reg,
)
advance c (starting reg r) = (c, spawning reg r [])
advance c (caching reg ep) =
    (record c { endpoints = put reg.job_id ep c.endpoints }, returned (ok ep))
advance c q = (c, q)

-- After `get_healthy_endpoint` has answered.
unfoldable pub answer : JobRegistration → Result (Option Endpoint) → Request
answer reg (err e) = returned (err e)
answer reg (ok none) = returned (
    err (job_not_ready (append "job " (append reg.job_id " marked ready but no healthy endpoint"))))
answer reg (ok (some ep)) = caching reg ep

-- The match on a received result.
pub outcome : JobRegistration → WakeResult → Result Endpoint
outcome reg (ready ep) = ok ep
outcome reg cancelled = err (wake_abandoned reg.job_id)
outcome reg (job_not_found job) = err (Error.job_not_found job)
outcome reg (failed m) = err (nomad (append "wake failed: " m))

-- `rx.recv()`: the oldest message, or an error for a receiver that lags by more than the channel's
-- capacity, 16.
unfoldable pub receive : JobRegistration → WakeResult → List WakeResult → Result Endpoint
unfolding outcome
receive reg m box =
    if ltb 15 (length box) then err (nomad "wake broadcast channel closed") else outcome reg m

-- The result that a failed wake broadcasts.
pub failure : NscaleError → WakeResult
failure (wake_abandoned job) = cancelled
failure (Error.job_not_found job) = job_not_found job
failure e = failed (to_string e)

-- One access of a wake task after `run_wake_task` has returned, with what it broadcasts.
unfoldable pub publish : WakeCoordinator → Wake → WakeCoordinator × Wake × Option (ℕ × WakeResult)
unfolding set_ready set_dormant failure
publish c (woke reg r ep) =
    (record c { endpoints = put reg.job_id ep c.endpoints }, inserted reg r ep, none)
publish c (inserted reg r ep) = (with_cell r (set_ready (c.cells r)) c, readied reg r ep, none)
publish c (readied reg r ep) = (c, ended reg r, some (r, ready ep))
publish c (broken reg r e) = (with_cell r (set_dormant (c.cells r)) c, reset reg r e, none)
publish c (reset reg r e) = (c, told reg r, some (r, failure e))
publish c (told reg r) = (record c { jobs = remove reg.job_id c.jobs }, fallen reg, none)
publish c k = (c, k, none)

-- A broadcast reaches the receivers of its cell.
unfoldable pub deliver : Option (ℕ × WakeResult) → Request → Request
deliver (some (r, m)) (spawning reg r' box) =
    spawning reg r' (if nat_eq r r' then box ++ m ∷ [] else box)
deliver (some (r, m)) (waiting reg r' box) =
    waiting reg r' (if nat_eq r r' then box ++ m ∷ [] else box)
deliver _ q = q

-- A live receiver on the cell: what `receiver_count` counts.
pub listens : ℕ → Request → Bool
listens r (spawning _ r' _) = nat_eq r r'
listens r (waiting _ r' _) = nat_eq r r'
listens r _ = false

-- The call stands at an await, where a client that disconnects drops it.
unfoldable pub awaits : Request → Bool
awaits (asking _) = true
awaits (waiting _ _ _) = true
awaits _ = false
