-- ===== src/Admin.antt =====
-- src/main.rs: the state of the admin API, and its purge of a job. The bodies of the purge's answers
-- are JSON values.
pub mod Purge
pub mod Submit
pub mod Sync
pub mod Samples
pub mod Tests
use nomad_scale_to_zero.Prelude.{
  ℕ, String, Bool, true, false, Option, none, some, List, [], ◌∷◌, ◌++◌, ltb, not, ◌&&◌,
  if◌then◌else◌,
}
use nomad_scale_to_zero.Prelude.Text.{append, show}
use nomad_scale_to_zero.Prelude.Json.{
  Value, null, boolean, number, string, array, object, Values, end, item, Fields, field, empty,
}
use nomad_scale_to_zero.Core.Job.{JobId}
use nomad_scale_to_zero.Core.Error.{NscaleError, http, job_not_found, to_string, Result, ok, err}
use nomad_scale_to_zero.Core.Effect.{Exec, on}
use nomad_scale_to_zero.Core.Traits.{ActivityStore, MissingJobTracker}
use nomad_scale_to_zero.Core.Services.{JobRegistry, Coordinator, InFlight}
use nomad_scale_to_zero.Nomad.Models.{JobSubmitResponse, JobStopResponse}

-- Of the Nomad client, what the handlers call.
pub record AdminState (W : Type 0) : Type 0 where
  pub parse_job : String → Option String → Exec W Value
  pub submit_job : Value → Exec W JobSubmitResponse
  pub stop_and_purge_job : JobId → Exec W JobStopResponse
  pub coordinator : Coordinator W
  pub registry : JobRegistry W
  pub activity_store : ActivityStore W
  pub missing_job_tracker : MissingJobTracker W
  pub in_flight : InFlight W
  pub file_provider_service : String

pub record Answer : Type 0 where
  pub status : ℕ
  pub body : Value

pub admin_error_status : NscaleError → ℕ
admin_error_status (http m) = 502
admin_error_status e = 400

-- `warnings.push(…)` on an error.
pub warning : String → Result (Unit {0}) → List String
warning what (ok u) = []
warning what (err e) = append what (to_string e) ∷ []

abbrev texts : List String → Values
texts [] = end
texts (t ∷ ts) = item (string t) (texts ts)

abbrev optional : Option String → Value
optional none = null
optional (some t) = string t

module _ {W : Type 0} (state : AdminState W) (job : JobId) where
  -- What follows the deregistration.
  pub deregistered : List String → Result (Unit {0}) → Exec W (List String)
  unfolding warning
  deregistered warnings (err e) w = (err e, w)
  deregistered warnings (ok u) w =
      let cleared = state.missing_job_tracker.clear_not_found job w in
      (ok (warnings ++ warning "failed to clear missing-job counter: " cleared.0), cleared.1)

  pub cleanup_admin_job_state : Exec W (List String)
  unfolding deregistered warning
  cleanup_admin_job_state w =
      let removed =
        state.activity_store.remove_activity job (state.coordinator.mark_dormant job w) in
      on (state.registry.deregister job)
        (deregistered (warning "failed to remove activity: " removed.0)) removed.1

  module _ (force : Bool) (in_flight : ℕ) where
    -- The match on the cleanup.
    pub cleaned : Bool → Option String → Result (List String) → W → Answer × W
    cleaned purged eval_id (err e) w = (
      record {
        status = 500;
        body = object (
            field "error" (string (to_string e))
              (field "job_id" (string job) (field "purged" (boolean purged) empty)));
      },
      w,
    )
    cleaned purged eval_id (ok warnings) w = (
      record {
        status = 200;
        body = object (
            field "job_id" (string job) (
              field "purged" (boolean purged) (
                field "force" (boolean force) (
                  field "in_flight" (number (show in_flight)) (
                    field "eval_id" (optional eval_id)
                      (field "warnings" (array (texts warnings)) empty))))));
      },
      w,
    )

    -- The match on Nomad's answer.
    pub stopped : Result JobStopResponse → W → Answer × W
    unfolding cleaned cleanup_admin_job_state
    stopped (ok response) w = on cleanup_admin_job_state (cleaned true (some response.eval_id)) w
    stopped (err (job_not_found m)) w = on cleanup_admin_job_state (cleaned false none) w
    stopped (err e) w = (
      record {
        status = 502;
        body = object (field "error" (string (to_string e)) (field "job_id" (string job) empty));
      },
      w,
    )

  pub admin_purge_job : Bool → W → Answer × W
  unfolding stopped
  admin_purge_job force w =
      let in_flight = state.in_flight.count job w in
      if ltb 0 in_flight && not force
      then (
        record {
          status = 409;
          body = object (
              field "error"
                (string "job has in-flight proxied requests; retry with force=true to purge anyway")
                (field "job_id" (string job) (field "in_flight" (number (show in_flight)) empty)));
        },
        w,
      )
      else on (state.stop_and_purge_job job) (stopped force in_flight) w
