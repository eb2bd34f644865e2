-- ===== src/Waker/Completion.antt =====
-- coordinator.rs: a wake that nothing delays, from its spawn to the answer of the call.
use nomad_scale_to_zero.Prelude.{ℕ, ◌+◌, ◌-◌, ◌<◌, ◌≡◌, refl, some, [], ◌∷◌, arith, eq_iff}
use nomad_scale_to_zero.Core.Job.{Endpoint, JobRegistration}
use nomad_scale_to_zero.Core.Error.{ok}
use nomad_scale_to_zero.Waker.State.{ready, state_ready}
use nomad_scale_to_zero.Waker.Tasks.{
  waiting, returned, acquiring, scaling, polling, woke, ended, receive,
}
use nomad_scale_to_zero.Waker.System.{
  System, set_request, set_wake, set_permits, run_wake, Step, acquired, scaled, healthy, published,
  received, Calm, here, next,
}
use nomad_scale_to_zero.Waker.Claims.{status}
use nomad_scale_to_zero.Waker.Operations.{wake_publishes}

receive-ready : (reg : JobRegistration) (ep : Endpoint) → receive reg (ready ep) [] ≡ ok ep
unfolding receive
receive-ready reg ep = refl

-- The wake task after Nomad has scaled the job up and its endpoint is healthy.
abbrev awoken : ℕ → JobRegistration → ℕ → Endpoint → System → System
awoken i reg r ep s =
    let scaling_up = set_wake i (scaling reg r) (set_permits (s.coordinator.permits - 1) s) in
    let up =
      set_wake i (polling reg r) (set_permits (scaling_up.coordinator.permits + 1) scaling_up) in
    set_wake i (woke reg r ep) up

awoken-Calm :
    (i : ℕ) (reg : JobRegistration) (r : ℕ) (ep : Endpoint) (s : System)
    → s.wake i ≡ acquiring reg r
    → 0 < s.coordinator.permits
    → Calm s (awoken i reg r ep s)
awoken-Calm i reg r ep s a p =
    next (next (next here (acquired i reg r a p)) (scaled i reg r (ground arith)))
      (healthy i reg r ep (ground arith))

published-Calm : (i : ℕ) (s t : System) → Calm s t → Calm s (run_wake i (run_wake i (run_wake i t)))
published-Calm i s t c = next (next (next c (published i)) (published i)) (published i)

woken_published :
    (i : ℕ) (reg : JobRegistration) (r : ℕ) (ep : Endpoint) (w : System)
    → w.wake i ≡ woke reg r ep
    → let t = run_wake i (run_wake i (run_wake i w)) in
      (t.coordinator.endpoints reg.job_id ≡ some ep)
      × (status t r ≡ state_ready)
      × (t.wake i ≡ ended reg r)
unfolding run_wake
woken_published i reg r ep w e =
    (ground (arith, eq_iff reg.job_id reg.job_id), ground arith, ground arith)

returns :
    (j : ℕ) (x : JobRegistration) (r : ℕ) (ep : Endpoint) (t : System)
    → t.request j ≡ waiting x r (ready ep ∷ [])
    → Step t (set_request j (returned (ok ep)) t)
returns j x r ep t h =
    let step : Step t (set_request j (returned (receive x (ready ep) [])) t) =
      received j x r (ready ep) [] h in
    rw (receive-ready x ep) at step

-- From every state in which a wake task has been spawned and a permit is free there is a run, in which
-- Nomad scales the job up and finds it healthy, that ends with the endpoint cached, the wake state READY
-- and the task ended, and in which every call that waited on the state with an empty mailbox can return
-- the endpoint as its next step.
pub wake_completes :
    (s : System) (i r : ℕ) (reg : JobRegistration) (ep : Endpoint)
    → s.wake i ≡ acquiring reg r
    → 0 < s.coordinator.permits
    → (t : System) × Calm s t
      × (t.coordinator.endpoints reg.job_id ≡ some ep)
      × (status t r ≡ state_ready)
      × (t.wake i ≡ ended reg r)
      × ((j : ℕ) (x : JobRegistration)
          → s.request j ≡ waiting x r []
          → Step t (set_request j (returned (ok ep)) t))
wake_completes s i r reg ep a p =
    let w : System = awoken i reg r ep s in
    let t : System = run_wake i (run_wake i (run_wake i w)) in
    let all_done = woken_published i reg r ep w (ground arith) in
    (
      t,
      published-Calm i s w (awoken-Calm i reg r ep s a p),
      all_done.0,
      all_done.1,
      all_done.2,
      λ (j : ℕ) (x : JobRegistration) (h : s.request j ≡ waiting x r []).
          returns j x r ep t (wake_publishes w i j r reg x ep [] (ground arith) h).2,
    )
