-- ===== src/Admin/Samples.antt =====
-- The admin API's services for the tests: they always succeed.
use nomad_scale_to_zero.Prelude.{ℕ, some}
use nomad_scale_to_zero.Prelude.Json.{Value, string, array, object, end, item, field, empty}
use nomad_scale_to_zero.Core.Error.{ok}
use nomad_scale_to_zero.Core.Samples.{
  sample_activity, sample_tracker, sample_registry, sample_coordinator, sample_in_flight,
}
use nomad_scale_to_zero.Admin.{AdminState}

-- A job with one service that Traefik routes to.
abbrev pub parsed : Value
parsed = object (
    field "ID" (string "web") (
      field "TaskGroups"
        (array (
          item
            (object (
              field "Name" (string "main") (
                field "Services"
                  (array (
                    item
                      (object (
                        field "Name" (string "web-svc") (
                          field "Tags"
                            (array (
                              item (string "traefik.enable=true")
                                (item (string "traefik.http.routers.web.rule=Host(`web`)") end)))
                            empty)))
                      end))
                  empty)))
            end))
        empty))

abbrev pub state : AdminState ℕ
state = record {
  parse_job = λ hcl variables w. (ok parsed, w);
  submit_job =
      λ job w. (ok (record { eval_id = "e1"; job_modify_index = 2; warnings = some "" }), w);
  file_provider_service = "s2z@file";
  stop_and_purge_job =
      λ job w. (ok (record { eval_id = "e1"; eval_create_index = 1; job_modify_index = 2 }), w);
  coordinator = sample_coordinator;
  registry = sample_registry;
  activity_store = sample_activity;
  missing_job_tracker = sample_tracker;
  in_flight = sample_in_flight;
}
