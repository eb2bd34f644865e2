-- ===== src/Nomad/JobMutator/Tests.antt =====
-- job_mutator.rs on a concrete job.
use nomad_scale_to_zero.Prelude.{◌≡◌, refl, true, List, [], all, ◌==◌}
use nomad_scale_to_zero.Prelude.Text.{append, strip_prefix, before_sep, text_lt}
use nomad_scale_to_zero.Prelude.Json.{
  Value, string, array, object, Values, end, item, Fields, field, empty, as_str,
}
use nomad_scale_to_zero.Core.Job.{JobRegistration}
use nomad_scale_to_zero.Core.Error.{ok, err}
use nomad_scale_to_zero.Nomad.JobMutator.Tags.{
  service_prefix, drop_matching, upsert_router_service_tag,
}
use nomad_scale_to_zero.Nomad.JobMutator.{id_of, inject_nscale_tags}
use nomad_scale_to_zero.Nomad.JobMutator.Routers.{matching, upsert-one_tag, upsert-idempotent}
use nomad_scale_to_zero.Nomad.JobMutator.Registrations.Distinct.{distinct}
use nomad_scale_to_zero.Nomad.JobMutator.Registrations.{registrations_distinct}

-- One router with two service tags.
abbrev tags : Values
tags = item (string "traefik.enable=true") (
    item (string "traefik.http.routers.web.rule=Host(`web`)") (
      item (string "traefik.http.routers.web.service=old")
        (item (string "traefik.http.routers.web.service=older") end)))

upsert-one_tag_example :
    (matching (service_prefix "web") (upsert_router_service_tag "web" "s2z@file" tags)
      ≡ item (string (append (service_prefix "web") "s2z@file")) end)
    × (drop_matching (service_prefix "web") (upsert_router_service_tag "web" "s2z@file" tags)
        ≡ drop_matching (service_prefix "web") tags)
upsert-one_tag_example = upsert-one_tag "web" "s2z@file" tags

upsert_twice :
    let once = upsert_router_service_tag "web" "s2z@file" tags in
    upsert_router_service_tag "web" "s2z@file" once ≡ once
upsert_twice = upsert-idempotent "web" "s2z@file" tags

-- A job with one group, in which two services have the same name.
abbrev service : Value
service = object (field "Name" (string "web-svc") (field "Tags" (array tags) empty))

abbrev job : Fields
job = field "ID" (string "web") (
    field "TaskGroups"
      (array (
        item
          (object (
            field "Name" (string "main")
              (field "Services" (array (item service (item service end))) empty)))
          end))
      empty)

abbrev mutated : Value × List JobRegistration
unfolding inject_nscale_tags
mutated = elim (inject_nscale_tags (object job) "s2z@file") [ ok x ↦ x | err e ↦ (object job, []) ]

registrations_distinct_example :
    (distinct mutated.1 ≡ true) × (all (λ r. r.job_id == "web") mutated.1 ≡ true)
unfolding id_of inject_nscale_tags strip_prefix before_sep text_lt as_str
registrations_distinct_example = registrations_distinct job "web" "s2z@file" mutated refl refl
