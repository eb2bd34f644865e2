-- ===== src/Admin/Submit/Tests.antt =====
-- src/main.rs: a submission and a sync on concrete services; the state is not used.
use nomad_scale_to_zero.Prelude.{◌+◌, ◌≡◌, refl, none, [], ◌∷◌, arith}
use nomad_scale_to_zero.Prelude.Text.{strip_prefix, before_sep, text_lt}
use nomad_scale_to_zero.Prelude.Json.{as_str}
use nomad_scale_to_zero.Nomad.JobMutator.Tags.{insert_name}
use nomad_scale_to_zero.Nomad.JobMutator.{id_of, inject_nscale_tags}
use nomad_scale_to_zero.Core.Samples.{web}
use nomad_scale_to_zero.Admin.Samples.{state}
use nomad_scale_to_zero.Admin.Submit.{SubmitJobRequest, SubmitJobResponse, admin_submit_job}
use nomad_scale_to_zero.Admin.Submit.Created.{Submission, created_registers_all}
use nomad_scale_to_zero.Admin.Sync.{admin_sync, sync_counts}

abbrev request : SubmitJobRequest
request = record { hcl = "job \"web\" {}"; variables = none }

abbrev answer : SubmitJobResponse
answer = record {
  job_id = "web";
  eval_id = "e1";
  job_modify_index = 2;
  warnings = none;
  managed_services = web ∷ [];
  registration_failures = [];
}

created_registers_all_example : Submission state request 7 answer
unfolding admin_submit_job id_of inject_nscale_tags insert_name strip_prefix before_sep text_lt
    as_str
created_registers_all_example = created_registers_all state request 7 answer refl

sync_counted :
    ((admin_sync state (web ∷ web ∷ []) 7).0.synced + (admin_sync state (web ∷ web ∷ []) 7).0.failed
      ≡ (admin_sync state (web ∷ web ∷ []) 7).0.total)
    × ((admin_sync state (web ∷ web ∷ []) 7).0.total ≡ 2)
sync_counted = sync_counts state (web ∷ web ∷ []) 7 (omega arith)
