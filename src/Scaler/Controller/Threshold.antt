-- ===== src/Scaler/Controller/Threshold.antt =====
-- controller.rs over auto_deregister.rs: how many misses in a row a registration survives.
use nomad_scale_to_zero.Prelude.{
  ℕ, zero, suc, String, ◌+◌, ◌<◌, ◌≤◌, ◌≡◌, ◌∙◌, ap, sym, refl, true, inr, arith,
}
use nomad_scale_to_zero.Core.Job.{JobId}
use nomad_scale_to_zero.Core.Error.{job_not_found, Result, ok, err}
use nomad_scale_to_zero.Core.Effect.{Reply, done, refused}
use nomad_scale_to_zero.Core.Services.{JobRegistry, Coordinator}
use nomad_scale_to_zero.Store.AutoDeregister.{
  RedisCounters, CounterLaws, key, increment_not_found, incremented, service,
}
use nomad_scale_to_zero.Scaler.Controller.{
  ScaleDownController, State, settle, handle_missing_job, missing_job_counted,
}
use nomad_scale_to_zero.Scaler.Controller.Missing.{Early, reconnected, missing_job-kept}

module _ {W : Type 0} (counters : RedisCounters W) (laws : CounterLaws counters) (job : JobId) where
  replied :
      (w : W) (x : Reply ℕ)
      → (counters.incr (key job) w).0 ≡ x
      → laws.value (key job) (increment_not_found counters job w).1 ≤ laws.value (key job) w + 1
  unfolding increment_not_found
  replied w (done n) e = ground (arith, laws.incr_value (key job) w n e)
  replied w (refused m) e = ground (arith, laws.incr_refused (key job) w m e)

-- The controller with the automatic deregistration on, and its counters in Redis.
abbrev pub counting : {W : Type 0} → ScaleDownController W → RedisCounters W → ScaleDownController W
counting c counters = record c {
  missing_job_tracker = service counters;
  auto_deregister_enabled = true;
}

module _ {W : Type 0} (job : JobId) (m : String) where
  -- `k` scale-downs in a row, each of which Nomad answers by not knowing the job.
  abbrev pub misses : ScaleDownController W → ℕ → State W → State W
  misses d zero s = s
  misses d (suc k) s = misses d k (settle d job (err (job_not_found m)) s)

module _ {W : Type 0} (c : ScaleDownController W) (counters : RedisCounters W)
    (laws : CounterLaws counters) (job : JobId) (m : String) where
  below :
      (a : Result ℕ) (s : State W)
      → ((n : ℕ) → a ≡ ok n → n < c.auto_deregister_threshold)
      → missing_job_counted (counting c counters) job a s ≡ s
  unfolding missing_job_counted
  below (err e) s h = refl
  below (ok n) s h = ground (arith, h n refl)

  early :
      (s : State W)
      → laws.value (key job) s.world + 1 < c.auto_deregister_threshold
      → Early (counting c counters) job s.world
  early s h n e = omega (arith, h, (incremented counters laws job s.world n e).0)

  -- One miss: fewer than the threshold, it is counted and nothing else happens.
  one_miss :
      (s : State W)
      → laws.value (key job) s.world + 1 < c.auto_deregister_threshold
      → settle (counting c counters) job (err (job_not_found m)) s
        ≡ record s { world = (increment_not_found counters job s.world).1 }
  unfolding settle handle_missing_job
  one_miss s h =
      below (increment_not_found counters job s.world).0
        (record s { world = (increment_not_found counters job s.world).1 }) (early s h)

  -- With the automatic deregistration on and the counters in Redis, misses in a row that are, with
  -- those on the counter before them, fewer than the threshold leave the job registered and its wake
  -- state as it is: what the controller does does not depend on the registry or on the coordinator.
  pub misses-kept :
      (k : ℕ) (s : State W) (r : JobRegistry W) (q : Coordinator W)
      → laws.value (key job) s.world + k < c.auto_deregister_threshold
      → misses job m (reconnected (counting c counters) job r q) k s
        ≡ misses job m (counting c counters) k s
  misses-kept zero s r q h = refl
  misses-kept (suc k) s r q h =
      let first : laws.value (key job) s.world + 1 < c.auto_deregister_threshold =
        omega (arith, h) in
      let counted = one_miss s first in
      let same = missing_job-kept (counting c counters) job s m r q (inr (early s first)) in
      let rest = record s { world = (increment_not_found counters job s.world).1 } in
      ap (misses job m (reconnected (counting c counters) job r q) k) (same ∙ counted)
      ∙ misses-kept k rest r q (omega (arith, h, replied counters laws job s.world _ refl))
      ∙ ap (misses job m (counting c counters) k) (sym counted)
