-- ===== src/Scaler/Controller/Guards.antt =====
-- controller.rs: when a job may be scaled down.
use nomad_scale_to_zero.Prelude.{
  ℕ, ltb, String, ◌+◌, ◌<◌, ◌≡◌, ◌≢◌, ◌⊎◌, inl, inr, refl, Bool, true, false, Option, none, some,
  arith, eq_iff, Bool-cases,
}
use nomad_scale_to_zero.Core.Job.{JobId, JobRegistration}
use nomad_scale_to_zero.Core.Error.{deployment_in_progress, Result, ok, err}
use nomad_scale_to_zero.Core.Traits.{Orchestrator}
use nomad_scale_to_zero.Core.Services.{Coordinator, has_in_flight, TrafficProbe}
use nomad_scale_to_zero.Scaler.Controller.{
  ScaleDownController, State, forget, deployment_backoff, settle, registered, lookup, probed,
  traffic_guard, in_flight_guard, scale_down_job, clear_missing_job_counter,
}

module _ {W : Type 0} where
  -- The deferral of the job has not run out.
  abbrev pub Deferred : ScaleDownController W → JobId → State W → Type 0
  Deferred c job s = (t : ℕ) × (s.deferred_jobs job ≡ some t) × (c.now s.world < t)

  -- What the probe says; without a probe no traffic is known.
  abbrev pub traffic : Option (TrafficProbe W) → JobId → W → Result Bool
  traffic none job w = ok false
  traffic (some p) job w = (p.has_active_traffic job w).0

  -- Traefik routes traffic to the job, or could not be asked.
  abbrev pub Routed : ScaleDownController W → JobId → State W → Type 0
  Routed c job s = traffic c.traffic_probe job s.world ≢ ok false

  abbrev pub world_after_probe : Option (TrafficProbe W) → JobId → W → W
  world_after_probe none job w = w
  world_after_probe (some p) job w = (p.has_active_traffic job w).1

  -- The registry knows no registration, or could not be asked.
  abbrev pub Unregistered : ScaleDownController W → JobId → State W → Type 0
  Unregistered c job s =
      (reg : JobRegistration)
      → (c.registry.get job (world_after_probe c.traffic_probe job s.world)).0 ≢ ok (some reg)

  abbrev pub Protected : ScaleDownController W → JobId → State W → Type 0
  Protected c job s =
      Deferred c job s
      ⊎ ((has_in_flight c.in_flight job s.world ≡ true) ⊎ (Routed c job s ⊎ Unregistered c job s))

  -- The controller with another orchestrator and another coordinator.
  abbrev pub rewired :
      ScaleDownController W → Orchestrator W → Coordinator W → ScaleDownController W
  rewired c o k = record c { orchestrator = o; coordinator = k }

module _ {W : Type 0} (c : ScaleDownController W) (o : Orchestrator W) (k : Coordinator W)
    (job : JobId) where
  registered_none :
      (r : Result (Option JobRegistration)) (s : State W)
      → ((reg : JobRegistration) → r ≢ ok (some reg))
      → registered (rewired c o k) job r s ≡ registered c job r s
  unfolding registered
  registered_none (ok none) s u = refl
  registered_none (ok (some reg)) s u = absurd (u reg refl)
  registered_none (err e) s u = refl

  probed_unregistered :
      (r : Result Bool) (s : State W)
      → (r ≢ ok false) ⊎ ((reg : JobRegistration) → (c.registry.get job s.world).0 ≢ ok (some reg))
      → probed (rewired c o k) job r s ≡ probed c job r s
  unfolding probed lookup
  probed_unregistered (ok true) s u = refl
  probed_unregistered (ok false) s (inl u) = absurd (u refl)
  probed_unregistered (ok false) s (inr u) = registered_none _ _ u
  probed_unregistered (err e) s u = refl

  traffic_guard_kept :
      (probe : Option (TrafficProbe W))
      → c.traffic_probe ≡ probe
      → (s : State W) → Routed c job s ⊎ Unregistered c job s
      → traffic_guard (rewired c o k) job s ≡ traffic_guard c job s
  unfolding traffic_guard lookup
  traffic_guard_kept none e s (inl r) = absurd (r (rw e))
  traffic_guard_kept none e s (inr u) = rw (e, traffic_guard) (registered_none _ _ (rw e at u))
  traffic_guard_kept (some p) e s (inl r) =
      rw (e, traffic_guard) (probed_unregistered _ _ (inl (rw e at r)))
  traffic_guard_kept (some p) e s (inr u) =
      rw (e, traffic_guard) (probed_unregistered _ _ (inr (rw e at u)))

  in_flight_guard_kept :
      (s : State W)
      → (has_in_flight c.in_flight job s.world ≡ true) ⊎ (Routed c job s ⊎ Unregistered c job s)
      → in_flight_guard (rewired c o k) job s ≡ in_flight_guard c job s
  unfolding in_flight_guard
  in_flight_guard_kept s (inl h) = rw h
  in_flight_guard_kept s (inr h) = elim (Bool-cases (has_in_flight c.in_flight job s.world)) [
    | inl busy ↦ rw busy
    | inr free ↦ rw free (traffic_guard_kept c.traffic_probe refl s h)
  ]

  deferred_kept :
      (d : Option ℕ) (s : State W)
      → s.deferred_jobs job ≡ d
      → Protected c job s
      → scale_down_job (rewired c o k) job s ≡ scale_down_job c job s
  unfolding scale_down_job
  deferred_kept none s e (inl (t, f, n)) = cc
  deferred_kept none s e (inr h) = rw (e, scale_down_job) (in_flight_guard_kept s h)
  deferred_kept (some u) s e (inl (t, f, n)) = ground arith
  deferred_kept (some u) s e (inr h) = elim (Bool-cases (ltb (c.now s.world) u)) [
    | inl wait ↦ rw (e, scale_down_job) (rw wait)
    | inr over ↦ rw (e, scale_down_job) (rw over (in_flight_guard_kept (forget job s) h))
  ]

-- The scale-down of one entry of the idle set, which is a job id or may be a service name, where under
-- the entry's own key a deferral runs, a request is in flight, Traefik routes traffic or may route it
-- for all the probe can tell, or no registration is known: it scales nothing down and marks nothing
-- dormant, for what it does depends neither on the orchestrator nor on the coordinator. Nothing is
-- said of a job whose entry stands under another of its names.
pub scale_down_job-Protected :
    {W : Type 0} (c : ScaleDownController W) (job : JobId) (s : State W)
    → Protected c job s
    → (o : Orchestrator W) (k : Coordinator W)
    → scale_down_job (rewired c o k) job s ≡ scale_down_job c job s
scale_down_job-Protected c job s p o k = deferred_kept c o k job (s.deferred_jobs job) s refl p

-- A job with no deferral, no request in flight, no traffic and a registration is
-- scaled down, in the group of its registration, and the outcome is settled.
pub scale_down_job_idle :
    {W : Type 0} (c : ScaleDownController W) (job : JobId) (s : State W) (reg : JobRegistration)
    → s.deferred_jobs job ≡ none
    → has_in_flight c.in_flight job s.world ≡ false
    → traffic c.traffic_probe job s.world ≡ ok false
    → (c.registry.get job (world_after_probe c.traffic_probe job s.world)).0 ≡ ok (some reg)
    → let w = (c.registry.get job (world_after_probe c.traffic_probe job s.world)).1 in
      let answer = c.orchestrator.scale_down reg.job_id reg.nomad_group w in
      scale_down_job c job s ≡ settle c job answer.0 (record s { world = answer.1 })
unfolding scale_down_job lookup
scale_down_job_idle c job s reg d f t g = ground arith

-- After Nomad has refused a scale-down because of a deployment, the job is left alone: whatever
-- happens elsewhere, an attempt within the back-off of thirty seconds changes nothing.
pub deployment_defers :
    {W : Type 0} (c : ScaleDownController W) (job : JobId) (s : State W) (m o : String) (w : W)
    → c.now w < c.now (clear_missing_job_counter c job s).world + deployment_backoff
    → let t = settle c job (err (deployment_in_progress m o)) s in
      scale_down_job c job (record t { world = w }) ≡ record t { world = w }
unfolding settle scale_down_job
deployment_defers c job s m o w h = ground (arith, eq_iff job job)
