-- ===== src/Nomad/Client/Tests.antt =====
-- client.rs on concrete answers; the state is not used.
use nomad_scale_to_zero.Prelude.{
  ℕ, String, ◌≡◌, ◌↔◌, refl, true, none, some, List, [], ◌∷◌, find, ◌==◌,
}
use nomad_scale_to_zero.Prelude.Json.{null}
use nomad_scale_to_zero.Core.Error.{job_not_found, deployment_in_progress, ok, err}
use nomad_scale_to_zero.Core.Effect.{done, refused}
use nomad_scale_to_zero.Core.Samples.{backend}
use nomad_scale_to_zero.Nomad.Models.{Allocation, is_running}
use nomad_scale_to_zero.Nomad.Client.Endpoints.{extract_endpoint}
use nomad_scale_to_zero.Nomad.Client.{
  Response, NomadClient, scale_up, scale_down, get_job_count, get_allocations, get_healthy_endpoint,
  stop_and_purge_job,
}
use nomad_scale_to_zero.Nomad.Client.Answers.{
  missing_job-classified, says, deploying, deployment-asymmetric, healthy_endpoint-running,
}

abbrev running : Allocation
running = record {
  id = "a1";
  job_id = "web";
  client_status = "running";
  desired_status = "run";
  task_group = "main";
  resources = some (record {
    networks =
        record {
          ip = "10.0.0.1";
          dynamic_ports = record { label = "http"; value = 8080 } ∷ [];
          reserved_ports = [];
        }
        ∷ [];
  });
  allocated_resources = none;
}

abbrev response : ℕ → String → Response ℕ
response status body = record {
  status = status;
  reason = "";
  text = λ w. (done body, w);
  json_value = λ w. (done null, w);
  json_submit = λ w. (refused "no body", w);
  json_stop = λ w. (refused "no body", w);
  json_job = λ w. (refused "no body", w);
  json_allocations = λ w. (done (running ∷ []), w);
  json_scale = λ w. (done "", w);
}

-- A client to which Nomad always answers the same.
abbrev client : ℕ → String → NomadClient ℕ
client status body = record {
  send = λ out w. (done (response status body), w);
  to_lowercase = λ s. s;
  base_url = "http://nomad:4646";
}

abbrev nowhere : NomadClient ℕ
nowhere = client 404 "job not found"

missing_job-classified_example :
    ((scale_up nowhere "web" "main" 1 0).0 ≡ err (job_not_found "web"))
    × ((scale_down nowhere "web" "main" 0).0 ≡ err (job_not_found "web"))
    × ((get_job_count nowhere "web" "main" 0).0 ≡ err (job_not_found "web"))
    × ((get_healthy_endpoint nowhere "web" 0).0 ≡ err (job_not_found "web"))
    × ((stop_and_purge_job nowhere "web" 0).0 ≡ err (job_not_found "web"))
missing_job-classified_example = missing_job-classified nowhere "web" (λ out w. refl) "main" 1 0

abbrev blocked : NomadClient ℕ
blocked = client 400 "scaling blocked due to active deployment"

deployment-asymmetric_example :
    (((scale_up blocked "web" "main" 1 0).0 ≡ ok tt)
      ↔ (says blocked deploying (response 400 "scaling blocked due to active deployment") 0 ≡ true))
    × (((scale_down blocked "web" "main" 0).0 ≡ err (deployment_in_progress "web" "scale down")) ↔ (
        says blocked deploying (response 400 "scaling blocked due to active deployment") 0 ≡ true))
deployment-asymmetric_example =
    deployment-asymmetric blocked "web" "main" 1 0 0 0
      (response 400 "scaling blocked due to active deployment")
      (response 400 "scaling blocked due to active deployment") refl refl refl refl

abbrev serving : NomadClient ℕ
serving = client 200 ""

serving_endpoint :
    (allocs : List Allocation) × (a : Allocation) × ((get_allocations serving "web" 0).0
      ≡ ok allocs)
    × (find is_running allocs ≡ some a)
    × ((a.client_status == "running") ≡ true)
    × ((a.desired_status == "run") ≡ true)
    × (extract_endpoint a ≡ some backend)
unfolding get_healthy_endpoint is_running extract_endpoint
serving_endpoint = healthy_endpoint-running serving "web" 0 backend refl
