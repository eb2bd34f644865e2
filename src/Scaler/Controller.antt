-- ===== src/Scaler/Controller.antt =====
-- crates/nscale-scaler/src/controller.rs. Everything outside the controller, the other replicas and
-- tasks included, is in the state `W`; the controller's own is the map of deferred jobs. Instants and
-- durations are in milliseconds.
pub mod Guards
pub mod Lock
pub mod Missing
pub mod Run
pub mod Threshold
pub mod Tests
use nomad_scale_to_zero.Prelude.{
  ℕ, ◌+◌, String, Bool, true, false, Option, none, some, List, [], ◌∷◌, put, remove, ltb, leb, not,
  if◌then◌else◌,
}
use nomad_scale_to_zero.Core.Job.{JobId, JobRegistration}
use nomad_scale_to_zero.Core.Error.{
  NscaleError, deployment_in_progress, job_not_found, Result, ok, err,
}
use nomad_scale_to_zero.Core.Effect.{Exec, pure, throw, ignore, also, on, ◌>>=◌, ◌>>◌}
use nomad_scale_to_zero.Core.Traits.{Orchestrator, ActivityStore, MissingJobTracker}
use nomad_scale_to_zero.Core.Services.{
  JobRegistry, Coordinator, InFlight, has_in_flight, TrafficProbe,
}

abbrev pub scale_down_lock_key : String
scale_down_lock_key = "nscale:lock:scale-down"

abbrev pub deployment_backoff : ℕ
deployment_backoff = 30_000

pub record ScaleDownController (W : Type 0) : Type 0 where
  pub orchestrator : Orchestrator W
  pub store : ActivityStore W
  pub registry : JobRegistry W
  pub coordinator : Coordinator W
  pub traffic_probe : Option (TrafficProbe W)
  pub in_flight : InFlight W
  pub missing_job_tracker : MissingJobTracker W
  pub idle_threshold : ℕ
  pub interval : ℕ
  pub auto_deregister_enabled : Bool
  pub auto_deregister_threshold : ℕ
  pub is_cancelled : W → Bool
  -- `tokio::spawn` of a task that changes the world, now or later
  pub spawn : (W → W) → W → W
  pub now : W → ℕ

pub record State (W : Type 0) : Type 0 where
  pub world : W
  pub deferred_jobs : String → Option ℕ

module _ {W : Type 0} where
  -- The lock outlives the interval by five seconds.
  abbrev pub lock_ttl : ScaleDownController W → ℕ
  lock_ttl c = c.interval + 5000

  -- An action, or a change, of the world.
  abbrev pub lift {ℓ} : {A : Type ℓ} → Exec W A → Exec (State W) A
  lift m s = ((m s.world).0, record s { world = (m s.world).1 })

  abbrev pub change : (W → W) → State W → State W
  change f s = record s { world = f s.world }

  abbrev pub forget : JobId → State W → State W
  forget job s = record s { deferred_jobs = remove job s.deferred_jobs }

  -- `if let Some(probe) = … { probe.clear_baseline(job_id).await }`
  abbrev pub clear_baseline : Option (TrafficProbe W) → JobId → W → W
  clear_baseline none job w = w
  clear_baseline (some probe) job w = probe.clear_baseline job w

module _ {W : Type 0} (c : ScaleDownController W) (job : JobId) where
  pub clear_missing_job_counter : State W → State W
  clear_missing_job_counter s =
      if c.auto_deregister_enabled
      then change (ignore (c.missing_job_tracker.clear_not_found job)) s
      else s

  pub cleanup_missing_job_state : Exec (State W) (Unit {0})
  cleanup_missing_job_state = also (change (c.coordinator.mark_dormant job)) (
      also (change (ignore (c.store.remove_activity job))) (
        also (forget job) (
          also (change (clear_baseline c.traffic_probe job)) do
            lift (c.registry.deregister job)
            also (change (ignore (c.missing_job_tracker.clear_not_found job))) (pure tt))))

  -- What follows the increment of the counter.
  pub missing_job_counted : Result ℕ → State W → State W
  unfolding cleanup_missing_job_state
  missing_job_counted (err e) s = s
  missing_job_counted (ok count) s =
      if leb c.auto_deregister_threshold count then ignore cleanup_missing_job_state s else s

  pub handle_missing_job : State W → State W
  unfolding missing_job_counted
  handle_missing_job s =
      if c.auto_deregister_enabled
      then on (lift (c.missing_job_tracker.increment_not_found job)) missing_job_counted s
      else s

  pub handle_scale_down_result : Result (Unit {0}) → State W → State W
  handle_scale_down_result (ok _) s = forget job (
      change (clear_baseline c.traffic_probe job)
        (change (ignore (c.store.remove_activity job)) (change (c.coordinator.mark_dormant job) s)))
  handle_scale_down_result (err (deployment_in_progress _ operation)) s =
      change (ignore (c.store.record_activity job))
        (record s { deferred_jobs = put job (c.now s.world + deployment_backoff) s.deferred_jobs })
  handle_scale_down_result (err _) s = s

  -- The match on the outcome of `scale_down`.
  pub settle : Result (Unit {0}) → State W → State W
  unfolding clear_missing_job_counter handle_missing_job handle_scale_down_result
  settle (ok u) s = handle_scale_down_result (ok u) (clear_missing_job_counter s)
  settle (err (job_not_found m)) s = handle_missing_job s
  settle (err (deployment_in_progress j o)) s =
      handle_scale_down_result (err (deployment_in_progress j o)) (clear_missing_job_counter s)
  settle (err e) s = handle_scale_down_result (err e) s

  -- The match on the registry's answer.
  pub registered : Result (Option JobRegistration) → State W → State W
  unfolding settle
  registered (ok (some reg)) s =
      on (lift (c.orchestrator.scale_down reg.job_id reg.nomad_group)) settle s
  registered (ok none) s = change (ignore (c.store.remove_activity job)) s
  registered (err e) s = s

  pub lookup : State W → State W
  unfolding registered
  lookup = on (lift (c.registry.get job)) registered

  -- The match on the probe's answer.
  pub probed : Result Bool → State W → State W
  unfolding lookup
  probed (ok true) s = change (ignore (c.store.record_activity job)) s
  probed (ok false) s = lookup s
  probed (err e) s = s

  pub traffic_guard : State W → State W
  unfolding probed lookup
  traffic_guard s = elim c.traffic_probe [
    | none ↦ lookup s
    | some probe ↦ on (lift (probe.has_active_traffic job)) probed s
  ]

  pub in_flight_guard : State W → State W
  unfolding traffic_guard
  in_flight_guard s =
      if has_in_flight c.in_flight job s.world
      then change (ignore (c.store.record_activity job)) s
      else traffic_guard s

  pub scale_down_job : State W → State W
  unfolding in_flight_guard
  scale_down_job s = elim (s.deferred_jobs job) [
    | none ↦ in_flight_guard s
    | some until ↦ if ltb (c.now s.world) until then s else in_flight_guard (forget job s)
  ]

module _ {W : Type 0} (c : ScaleDownController W) where
  -- `for job_id in &idle_jobs`
  pub scale_down_jobs : List JobId → State W → State W
  unfolding scale_down_job
  scale_down_jobs [] s = s
  scale_down_jobs (job ∷ rest) s =
      if c.is_cancelled s.world then s else scale_down_jobs rest (scale_down_job c job s)

  -- The tick while the lock is held.
  pub locked_tick : Exec (State W) (Unit {0})
  unfolding scale_down_jobs
  locked_tick = do
    idle_jobs ← lift (c.store.get_idle_jobs c.idle_threshold)
    also (scale_down_jobs idle_jobs) (pure tt)

  -- The guard spawns the release of the lock when it is dropped, whatever the outcome.
  pub guarded : Exec (State W) (Unit {0}) → Exec (State W) (Unit {0})
  guarded body s =
      ((body s).0, change (c.spawn (ignore (c.store.release_lock scale_down_lock_key))) (body s).1)

  pub tick : Exec (State W) (Unit {0})
  unfolding locked_tick guarded
  tick = do
    acquired ← lift (c.store.try_acquire_lock scale_down_lock_key (lock_ttl c))
    if acquired then guarded locked_tick else pure tt
