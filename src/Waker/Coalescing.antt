-- ===== src/Waker/Coalescing.antt =====
-- coordinator.rs: which tasks work for one wake state, and for one job.
use nomad_scale_to_zero.Prelude.{ℕ, String, ◌≡◌, refl, Option, none, some, arith, eq_iff}
use nomad_scale_to_zero.Core.Job.{JobRegistration}
use nomad_scale_to_zero.Waker.Tasks.{
  Request, enter, check, subscribing, racing, starting, spawning, waiting, Wake, unborn, acquiring,
  scaling, polling, ended, told, woke, inserted, readied, broken, reset, fallen, answer, awaits,
}
use nomad_scale_to_zero.Waker.System.{
  System, Step, called, accessed, answered, received, timed_out, dropped, spawned, acquired, scaled,
  healthy, published, Refresh, endpoint_cached, marked_ready, Calm, here, next, refreshed, Reach,
  init, run_request, run_wake,
}
use nomad_scale_to_zero.Waker.System
use nomad_scale_to_zero.Waker.Claims.{claim, claim_wake}
use nomad_scale_to_zero.Waker.Invariant.{Reach-Inv}

claim-claim_wake : (q : Request) (k : Wake) (r : ℕ) → claim_wake k ≡ some r → claim q k ≡ some r
claim-claim_wake q k r h = ground arith

-- In any run in which nobody calls `mark_dormant` or `invalidate` and no refresh finds a job without
-- an endpoint, two wake tasks that work for the same wake state, from their spawn until they have
-- reset it after a failure, are the same task.
pub one_wake_per_state :
    (n secs : ℕ) {s : System} (i j r : ℕ)
    → Reach (init n secs) s
    → claim_wake (s.wake i) ≡ some r
    → claim_wake (s.wake j) ≡ some r
    → i ≡ j
one_wake_per_state n secs {s} i j r run h k =
    (Reach-Inv n secs run).unique i j r (claim-claim_wake (s.request i) (s.wake i) r h)
      (claim-claim_wake (s.request j) (s.wake j) r k)

-- The job and the wake state that a task refers to.
abbrev ref_request : Request → Option (String × ℕ)
ref_request (check reg r) = some (reg.job_id, r)
ref_request (subscribing reg r) = some (reg.job_id, r)
ref_request (racing reg r) = some (reg.job_id, r)
ref_request (starting reg r) = some (reg.job_id, r)
ref_request (spawning reg r _) = some (reg.job_id, r)
ref_request (waiting reg r _) = some (reg.job_id, r)
ref_request _ = none

abbrev pub registration : Wake → Option JobRegistration
registration unborn = none
registration (acquiring reg r) = some reg
registration (scaling reg r) = some reg
registration (polling reg r) = some reg
registration (woke reg r ep) = some reg
registration (inserted reg r ep) = some reg
registration (readied reg r ep) = some reg
registration (ended reg r) = some reg
registration (told reg r) = some reg
registration (broken reg r e) = some reg
registration (reset reg r e) = some reg
registration (fallen reg) = some reg

abbrev ref_wake : Wake → Option (String × ℕ)
ref_wake (acquiring reg r) = some (reg.job_id, r)
ref_wake (scaling reg r) = some (reg.job_id, r)
ref_wake (polling reg r) = some (reg.job_id, r)
ref_wake (woke reg r ep) = some (reg.job_id, r)
ref_wake (inserted reg r ep) = some (reg.job_id, r)
ref_wake (readied reg r ep) = some (reg.job_id, r)
ref_wake (ended reg r) = some (reg.job_id, r)
ref_wake _ = none

abbrev IsWell : Wake → Type 0
IsWell (told reg r) = ⊥
IsWell (broken reg r e) = ⊥
IsWell (reset reg r e) = ⊥
IsWell (fallen reg) = ⊥
IsWell _ = Unit

-- While no wake fails, the map never drops an entry, so all tasks of a job share its state.
record IsKeyed (s : System) : Type 0 where
  requests :
      (i : ℕ) (k : String) (r : ℕ)
      → ref_request (s.request i) ≡ some (k, r)
      → s.coordinator.jobs k ≡ some r
  wakes :
      (i : ℕ) (k : String) (r : ℕ)
      → ref_wake (s.wake i) ≡ some (k, r)
      → s.coordinator.jobs k ≡ some r
  well : (i : ℕ) → IsWell (s.wake i)

module _ (s : System) (v : IsKeyed s) (i : ℕ) where
  run_request-IsKeyed : (q : Request) → s.request i ≡ q → IsKeyed (run_request i s)
  unfolding run_request
  run_request-IsKeyed (enter reg) e = record {
    requests = λ j k r h. ground (arith, v.requests j k r, eq_iff reg.job_id k);
    wakes = λ j k r h. ground (arith, v.wakes j k r, eq_iff reg.job_id k);
    well = v.well;
  }
  run_request-IsKeyed q e = record {
    requests = λ j k r h. ground (arith, v.requests j k r, v.requests i k r);
    wakes = λ j k r h. ground (arith, v.wakes j k r);
    well = v.well;
  }

  run_wake-IsKeyed : (k : Wake) → s.wake i ≡ k → IsKeyed (run_wake i s)
  unfolding run_wake
  run_wake-IsKeyed (ended reg t) e = record {
    requests = λ j k r h. ground (arith, v.requests j k r);
    wakes = λ j k r h. ground (arith, v.wakes j k r, v.well i);
    well = λ j. ground (arith, v.well j);
  }
  run_wake-IsKeyed w e = record {
    requests = λ j k r h. ground (arith, v.requests j k r, v.well i);
    wakes = λ j k r h. ground (arith, v.wakes j k r, v.wakes i k r, v.well i);
    well = λ j. ground (arith, v.well j, v.well i);
  }

Step-IsKeyed : {s t : System} → Step s t → IsKeyed s → IsKeyed t
unfolding answer awaits
Step-IsKeyed {s} (accessed i) v = run_request-IsKeyed s v i (s.request i) refl
Step-IsKeyed {s} (published i) v = run_wake-IsKeyed s v i (s.wake i) refl
Step-IsKeyed {s} (called i reg e) v = record {
  requests = λ j k r h. ground (arith, v.requests j k r);
  wakes = v.wakes;
  well = v.well;
}
Step-IsKeyed {s} (answered i reg a e) v = record {
  requests = λ j k r h. ground (arith, v.requests j k r);
  wakes = v.wakes;
  well = v.well;
}
Step-IsKeyed {s} (received i reg t m box e) v = record {
  requests = λ j k r h. ground (arith, v.requests j k r);
  wakes = v.wakes;
  well = v.well;
}
Step-IsKeyed {s} (timed_out i reg t e) v = record {
  requests = λ j k r h. ground (arith, v.requests j k r);
  wakes = v.wakes;
  well = v.well;
}
Step-IsKeyed {s} (dropped i e) v = record {
  requests = λ j k r h. ground (arith, v.requests j k r);
  wakes = v.wakes;
  well = v.well;
}
Step-IsKeyed {s} (spawned i reg t box e u) v = record {
  requests = λ j k r h. ground (arith, v.requests j k r, v.requests i k r);
  wakes = λ j k r h. ground (arith, v.wakes j k r, v.requests i k r);
  well = λ j. ground (arith, v.well j);
}
Step-IsKeyed {s} (acquired i reg t e p) v = record {
  requests = v.requests;
  wakes = λ j k r h. ground (arith, v.wakes j k r, v.wakes i k r);
  well = λ j. ground (arith, v.well j);
}
Step-IsKeyed {s} (scaled i reg t e) v = record {
  requests = v.requests;
  wakes = λ j k r h. ground (arith, v.wakes j k r, v.wakes i k r);
  well = λ j. ground (arith, v.well j);
}
Step-IsKeyed {s} (healthy i reg t ep e) v = record {
  requests = v.requests;
  wakes = λ j k r h. ground (arith, v.wakes j k r, v.wakes i k r);
  well = λ j. ground (arith, v.well j);
}

Refresh-IsKeyed : {s t : System} → Refresh s t → IsKeyed s → IsKeyed t
Refresh-IsKeyed (endpoint_cached key ep) v = record {
  requests = v.requests;
  wakes = v.wakes;
  well = v.well;
}
Refresh-IsKeyed (marked_ready key) v = record {
  requests = λ j k r h. ground (arith, v.requests j k r);
  wakes = λ j k r h. ground (arith, v.wakes j k r);
  well = v.well;
}

init-IsKeyed : (n secs : ℕ) → IsKeyed (init n secs)
unfolding init
init-IsKeyed n secs = record { requests = λ i k r h. cc; wakes = λ i k r h. cc; well = λ i. tt }

Calm-IsKeyed : (n secs : ℕ) {s : System} → Calm (init n secs) s → IsKeyed s
Calm-IsKeyed n secs here = init-IsKeyed n secs
Calm-IsKeyed n secs (next r st) = Step-IsKeyed st (Calm-IsKeyed n secs r)
Calm-IsKeyed n secs (refreshed r st) = Refresh-IsKeyed st (Calm-IsKeyed n secs r)

Calm-Reach : {s t : System} → Calm s t → Reach s t
Calm-Reach here = System.here
Calm-Reach (next r st) = System.next (Calm-Reach r) st
Calm-Reach (refreshed r st) = System.refreshed (Calm-Reach r) st

-- A spawned task that has not failed refers to a wake state, and claims it.
ref_of_registration :
    (k : Wake) (reg : JobRegistration)
    → IsWell k
    → registration k ≡ some reg
    → (r : ℕ) × (ref_wake k ≡ some (reg.job_id, r)) × (claim_wake k ≡ some r)
ref_of_registration (acquiring x r) reg w h = (r, ground arith, refl)
ref_of_registration (scaling x r) reg w h = (r, ground arith, refl)
ref_of_registration (polling x r) reg w h = (r, ground arith, refl)
ref_of_registration (woke x r ep) reg w h = (r, ground arith, refl)
ref_of_registration (inserted x r ep) reg w h = (r, ground arith, refl)
ref_of_registration (readied x r ep) reg w h = (r, ground arith, refl)
ref_of_registration (ended x r) reg w h = (r, ground arith, refl)
ref_of_registration unborn reg w h = cc
ref_of_registration (told x r) reg w h = absurd w
ref_of_registration (broken x r e) reg w h = absurd w
ref_of_registration (reset x r e) reg w h = absurd w
ref_of_registration (fallen x) reg w h = absurd w

-- In a run in which no wake fails, nobody calls `mark_dormant` or `invalidate` and no refresh finds a
-- job without an endpoint, all the requests for one job spawn
-- at most one wake task, running or done, and so make at most one `scale_up` call.
pub one_wake_per_job :
    (n secs : ℕ) {s : System} (i j : ℕ) (a b : JobRegistration)
    → Calm (init n secs) s
    → registration (s.wake i) ≡ some a
    → registration (s.wake j) ≡ some b
    → a.job_id ≡ b.job_id
    → i ≡ j
one_wake_per_job n secs {s} i j a b run h k same_job =
    let v : IsKeyed s = Calm-IsKeyed n secs run in
    let (r, ref, claimed) = ref_of_registration (s.wake i) a (v.well i) h in
    let (t, ref', claimed') = ref_of_registration (s.wake j) b (v.well j) k in
    let shared : r ≡ t = ground (arith, v.wakes i a.job_id r ref, v.wakes j b.job_id t ref') in
    one_wake_per_state n secs i j t (Calm-Reach run) (rw (← shared) claimed) claimed'
