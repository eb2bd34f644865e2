-- ===== src/Admin/Purge.antt =====
-- src/main.rs: what a successful purge means.
use nomad_scale_to_zero.Prelude.{
  ℕ, String, Bool, true, false, Option, none, some, List, ltb, not, ◌&&◌, ◌≡◌, ◌⊎◌, inl, inr, refl,
  arith, Bool-cases,
}
use nomad_scale_to_zero.Core.Job.{JobId}
use nomad_scale_to_zero.Core.Error.{job_not_found, Result, ok, err}
use nomad_scale_to_zero.Nomad.Models.{JobStopResponse}
use nomad_scale_to_zero.Admin.{
  AdminState, deregistered, cleanup_admin_job_state, cleaned, stopped, admin_purge_job,
}

module _ {W : Type 0} (state : AdminState W) (job : JobId) where
  -- Nomad has stopped the job, or has not known it.
  abbrev pub Gone : Result JobStopResponse → Type 0
  Gone r = ((a : JobStopResponse) × (r ≡ ok a)) ⊎ ((m : String) × (r ≡ err (job_not_found m)))

  -- The state in which the purge deregisters the job.
  abbrev pub before_deregister : W → W
  before_deregister w =
      (state.activity_store.remove_activity job (state.coordinator.mark_dormant job w)).1

  deregistered_ok :
      (ws us : List String) (r : Result (Unit {0})) (w : W)
      → (deregistered state job ws r w).0 ≡ ok us
      → r ≡ ok tt
  unfolding deregistered
  deregistered_ok ws us (ok tt) w h = refl
  deregistered_ok ws us (err e) w h = absurd (ground arith)

  cleaned_ok :
      (force : Bool) (n : ℕ) (p : Bool) (id : Option String) (r : Result (List String)) (v w : W)
      → (cleanup_admin_job_state state job v).0 ≡ r
      → (cleaned state job force n p id r w).0.status ≡ 200
      → (state.registry.deregister job (before_deregister v)).0 ≡ ok tt
  unfolding cleaned cleanup_admin_job_state
  cleaned_ok force n p id (err e) v w c h = absurd (ground arith)
  cleaned_ok force n p id (ok ws) v w c h = deregistered_ok _ ws _ _ c

  stopped_ok :
      (force : Bool) (n : ℕ) (r : Result JobStopResponse) (w : W)
      → (stopped state job force n r w).0.status ≡ 200
      → Gone r × ((state.registry.deregister job (before_deregister w)).0 ≡ ok tt)
  unfolding stopped
  stopped_ok force n (ok a) w h =
      (inl (a, refl), cleaned_ok force n true (some a.eval_id) _ w _ refl h)
  stopped_ok force n (err (job_not_found m)) w h =
      (inr (m, refl), cleaned_ok force n false none _ w _ refl h)
  stopped_ok force n (err e) w h = absurd (ground arith)

  -- The admin API answers a purge with 200 only if the job had no request in flight or the purge was
  -- forced, Nomad has stopped the job or did not know it, and the registration has been removed.
  pub purge_ok-Gone :
      (force : Bool) (w : W)
      → (admin_purge_job state job force w).0.status ≡ 200
      → ((state.in_flight.count job w ≡ 0) ⊎ (force ≡ true))
        × Gone (state.stop_and_purge_job job w).0
        × ((state.registry.deregister job (before_deregister (state.stop_and_purge_job job w).1)).0
            ≡ ok tt)
  unfolding admin_purge_job
  purge_ok-Gone force w h = elim (Bool-cases (ltb 0 (state.in_flight.count job w) && not force)) [
    | inl busy ↦ absurd (ground arith)
    | inr free ↦
        let answer : Result JobStopResponse × W = state.stop_and_purge_job job w in
        let done =
          stopped_ok force (state.in_flight.count job w) answer.0 answer.1
            (ground (arith, free, h)) in
        (ground (arith, free), done.0, done.1)
  ]
