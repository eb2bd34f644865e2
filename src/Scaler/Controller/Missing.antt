-- ===== src/Scaler/Controller/Missing.antt =====
-- controller.rs: what becomes of a job that Nomad does not know.
use nomad_scale_to_zero.Prelude.{ℕ, String, ◌<◌, ◌≡◌, ◌⊎◌, inl, inr, refl, false, arith}
use nomad_scale_to_zero.Core.Job.{JobId}
use nomad_scale_to_zero.Core.Error.{job_not_found, Result, ok, err}
use nomad_scale_to_zero.Core.Services.{JobRegistry, Coordinator}
use nomad_scale_to_zero.Scaler.Controller.{
  ScaleDownController, State, missing_job_counted, handle_missing_job, settle,
}

module _ {W : Type 0} (c : ScaleDownController W) (job : JobId) where
  -- The misses in a row, this one included, are fewer than the threshold, or could not be counted.
  abbrev pub Early : W → Type 0
  Early w =
      (n : ℕ)
      → (c.missing_job_tracker.increment_not_found job w).0 ≡ ok n
      → n < c.auto_deregister_threshold

  -- The controller with another registry and another coordinator.
  abbrev pub reconnected : JobRegistry W → Coordinator W → ScaleDownController W
  reconnected r k = record c { registry = r; coordinator = k }

  counted_early :
      (r : JobRegistry W) (k : Coordinator W) (a : Result ℕ) (s : State W)
      → ((n : ℕ) → a ≡ ok n → n < c.auto_deregister_threshold)
      → missing_job_counted (reconnected r k) job a s ≡ missing_job_counted c job a s
  unfolding missing_job_counted
  counted_early r k (err e) s h = refl
  counted_early r k (ok n) s h = ground (arith, h n refl)

  -- A job that Nomad does not know stays registered, and is not marked dormant, unless the automatic
  -- deregistration is on and the misses in a row have reached the threshold: until then, what the
  -- controller does about it does not depend on the registry or on the coordinator.
  pub missing_job-kept :
      (s : State W) (m : String) (r : JobRegistry W) (k : Coordinator W)
      → (c.auto_deregister_enabled ≡ false) ⊎ Early s.world
      → settle (reconnected r k) job (err (job_not_found m)) s
        ≡ settle c job (err (job_not_found m)) s
  unfolding settle handle_missing_job
  missing_job-kept s m r k (inl off) = ground arith
  missing_job-kept s m r k (inr early) = ground (
    arith,
    counted_early r k (c.missing_job_tracker.increment_not_found job s.world).0
        (record s { world = (c.missing_job_tracker.increment_not_found job s.world).1 }) early,
  )
