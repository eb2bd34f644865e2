-- ===== src/Admin/Submit.antt =====
-- src/main.rs: the submission of a job, which Nomad parses, which is given its routing tags, and whose
-- services are registered.
pub mod Created
pub mod Tests
use nomad_scale_to_zero.Prelude.{ℕ, String, Option, none, some, List, [], ◌∷◌, ◌++◌, if◌then◌else◌}
use nomad_scale_to_zero.Prelude.Text.{is_empty}
use nomad_scale_to_zero.Prelude.Json.{Value, string, object, field, empty}
use nomad_scale_to_zero.Core.Job.{JobId, JobRegistration}
use nomad_scale_to_zero.Core.Error.{NscaleError, to_string, Result, ok, err}
use nomad_scale_to_zero.Core.Effect.{on, ignore}
use nomad_scale_to_zero.Nomad.Models.{JobSubmitResponse}
use nomad_scale_to_zero.Nomad.JobMutator.Tags.{insert_name}
use nomad_scale_to_zero.Nomad.JobMutator.{inject_nscale_tags}
use nomad_scale_to_zero.Admin.{AdminState, Answer, admin_error_status}

pub record SubmitJobRequest : Type 0 where
  pub hcl : String
  pub variables : Option String

pub record RegistrationFailure : Type 0 where
  pub service_name : String
  pub error : String

pub record SubmitJobResponse : Type 0 where
  pub job_id : String
  pub eval_id : String
  pub job_modify_index : ℕ
  pub warnings : Option String
  pub managed_services : List JobRegistration
  pub registration_failures : List RegistrationFailure

-- A JSON error, or the response; each with its status.
pub data SubmitAnswer : Type 0 where
  rejected : Answer → SubmitAnswer
  submitted : ℕ → SubmitJobResponse → SubmitAnswer

-- The variables of the registering loop; the ids are a `BTreeSet`.
pub record Seeding : Type 0 where
  pub seeded_job_ids : List JobId
  pub registration_failures : List RegistrationFailure

pub reject : ℕ → String → SubmitAnswer
reject status error =
    rejected (record { status = status; body = object (field "error" (string error) empty) })

-- `filter(|warning| !warning.is_empty())`
abbrev pub nonempty : Option String → Option String
nonempty none = none
nonempty (some s) = if is_empty s then none else some s

-- 201, or 207 with a failure.
pub submit_status : List RegistrationFailure → ℕ
submit_status [] = 201
submit_status (f ∷ fs) = 207

module _ {W : Type 0} (state : AdminState W) where
  pub registered : JobRegistration → Result (Unit {0}) → Seeding → Seeding
  unfolding insert_name
  registered r (ok u) s = record s { seeded_job_ids = insert_name r.job_id s.seeded_job_ids }
  registered r (err e) s = record s {
    registration_failures =
        s.registration_failures
        ++ (record { service_name = r.service_name; error = to_string e } ∷ []);
  }

  pub register_services : List JobRegistration → Seeding → W → Seeding × W
  unfolding registered
  register_services [] s w = (s, w)
  register_services (r ∷ rest) s w =
      let outcome = state.registry.register r w in
      register_services rest (registered r outcome.0 s) outcome.1

  -- A failure is logged only.
  pub seed_activity : List JobId → W → W
  seed_activity [] w = w
  seed_activity (job ∷ rest) w =
      seed_activity rest (ignore (state.activity_store.record_activity job) w)

  abbrev pub respond :
      JobId → List JobRegistration → JobSubmitResponse → Seeding × W → SubmitAnswer × W
  unfolding submit_status seed_activity
  respond job services response (s, w) = (
    submitted (submit_status s.registration_failures) (record {
      job_id = job;
      eval_id = response.eval_id;
      job_modify_index = response.job_modify_index;
      warnings = nonempty response.warnings;
      managed_services = services;
      registration_failures = s.registration_failures;
    }),
    seed_activity s.seeded_job_ids w,
  )

  -- The match on Nomad's answer; `job` is that of the first service.
  pub accepted : JobId → List JobRegistration → Result JobSubmitResponse → W → SubmitAnswer × W
  unfolding register_services respond reject admin_error_status
  accepted job services (err e) w = (reject (admin_error_status e) (to_string e), w)
  accepted job services (ok response) w =
      respond job services response
        (register_services services (record { seeded_job_ids = []; registration_failures = [] }) w)

  -- The match on the result of `inject_nscale_tags`, and the refusal of a job without services.
  pub injected : Result (Value × List JobRegistration) → W → SubmitAnswer × W
  unfolding accepted reject
  injected (err e) w = (reject 400 (to_string e), w)
  injected (ok (job, [])) w =
      (reject 400 "parsed job does not contain any Traefik-enabled services for nscale", w)
  injected (ok (job, r ∷ rest)) w = on (state.submit_job job) (accepted r.job_id (r ∷ rest)) w

  pub parsed : Result Value → W → SubmitAnswer × W
  unfolding injected reject admin_error_status
  parsed (err e) w = (reject (admin_error_status e) (to_string e), w)
  parsed (ok job) w = injected (inject_nscale_tags job state.file_provider_service) w

  pub admin_submit_job : SubmitJobRequest → W → SubmitAnswer × W
  unfolding parsed
  admin_submit_job request w = on (state.parse_job request.hcl request.variables) parsed w
