-- ===== src/Nomad/JobMutator.antt =====
-- crates/nscale-nomad/src/job_mutator.rs: the tags that a submitted job is given. The job is passed
-- on instead of being changed in place; after an error the caller drops it. `serde_json` keeps the
-- fields of an object sorted, which nothing here reads.
pub mod Tags
pub mod Routers
pub mod Registrations
pub mod Tests
use nomad_scale_to_zero.Prelude.{
  String, Bool, true, false, Option, none, some, List, [], ◌∷◌, ◌++◌, any, ◌==◌, ◌&&◌, not,
  if◌then◌else◌,
}
use nomad_scale_to_zero.Prelude.Text.{append, strip_prefix, starts_with, before_sep, text_lt}
use nomad_scale_to_zero.Prelude.Json.{
  Value, string, array, object, Values, end, item, Fields, as_str, as_object, field_array,
  field_str, set_field, or_insert,
}
use nomad_scale_to_zero.Core.Job.{JobId, JobRegistration}
use nomad_scale_to_zero.Core.Error.{NscaleError, nomad, Result, ok, err, and_then, ok_or}
use nomad_scale_to_zero.Nomad.JobMutator.Tags.{
  traefik_enable_tag, router_prefix, insert_name, router_name, collect_router_names, service_prefix,
  matches, any_matches, drop_matching, replace_matching, push, upsert_router_service_tag,
  upsert_all, has_traefik_enabled,
}

abbrev pub Triple : Type 0
Triple = String × String × String

abbrev pub same_triple : Triple → Triple → Bool
same_triple a b = (a.0 == b.0) && ((a.1 == b.1) && (a.2 == b.2))

-- The set `seen` and the registrations, in the order in which they are pushed.
pub record Found : Type 0 where
  pub seen : List Triple
  pub registrations : List JobRegistration

module _ (job_id group_name file_provider_service : String) where
  -- `if seen.insert(…) { registrations.push(…) }`
  pub add_registration : String → Found → Found
  add_registration service_name f =
      let triple : Triple = (job_id, service_name, group_name) in
      if any (same_triple triple) f.seen then f else record {
        seen = triple ∷ f.seen;
        registrations =
            f.registrations
            ++ record { job_id = job_id; service_name = service_name; nomad_group = group_name }
              ∷ [];
      }

  -- The body of the loop once the service's tags are an array.
  pub inject_tags : String → Fields → Values → Found → Result (Value × Found)
  unfolding has_traefik_enabled collect_router_names upsert_all add_registration
  inject_tags service_name service tags f =
      if not (has_traefik_enabled tags)
      then ok (object service, f)
      else elim (collect_router_names tags) [
        | [] ↦ err (
            nomad (
              append "traefik-enabled service '" (
                append service_name (
                  append "' in group '" (
                    append group_name
                      (append "' of job '" (append job_id "' is missing explicit router tags")))))))
        | n ∷ ns ↦ ok (
          object
              (set_field "Tags" (array (upsert_all file_provider_service (n ∷ ns) tags)) service),
          add_registration service_name f,
        )
      ]

  abbrev in_group : String → NscaleError
  in_group what = nomad (
      append "service in group '"
        (append group_name (append "' of job '" (append job_id (append "' " what)))))

  abbrev non_array : String → NscaleError
  non_array service_name = nomad (
      append "service '" (
        append service_name (
          append "' in group '"
            (append group_name (append "' of job '" (append job_id "' has non-array Tags"))))))

  -- The body of the loop.
  pub inject_service : Value → Found → Result (Value × Found)
  unfolding inject_tags
  inject_service v f = and_then (ok_or (in_group "is not an object") (as_object v)) λ service.
      and_then (ok_or (in_group "is missing Name") (field_str "Name" service)) λ service_name.
        let tagged = or_insert "Tags" (array end) service in
        and_then (ok_or (non_array service_name) (field_array "Tags" tagged))
          λ tags. inject_tags service_name tagged tags f

  pub inject_service_tags : Values → Found → Result (Values × Found)
  unfolding inject_service
  inject_service_tags end f = ok (end, f)
  inject_service_tags (item v vs) f =
      and_then (inject_service v f)
        λ x. and_then (inject_service_tags vs x.1) λ y. ok (item x.0 y.0, y.1)

  -- `if let Some(services) = ….get_mut("Services").and_then(Value::as_array_mut)`
  pub inject_services : Fields → Found → Result (Fields × Found)
  unfolding inject_service_tags
  inject_services owner f = elim (field_array "Services" owner) [
    | none ↦ ok (owner, f)
    | some services ↦
        and_then (inject_service_tags services f)
          λ x. ok (set_field "Services" (array x.0) owner, x.1)
  ]

  pub inject_tasks : Values → Found → Result (Values × Found)
  unfolding inject_services
  inject_tasks end f = ok (end, f)
  inject_tasks (item v vs) f =
      and_then
        (ok_or
          (nomad (
            append "task in group '"
              (append group_name (append "' of job '" (append job_id "' is not an object")))))
          (as_object v))
        λ task.
          and_then (inject_services task f)
            λ x. and_then (inject_tasks vs x.1) λ y. ok (item (object x.0) y.0, y.1)

  -- The task group after its own services.
  pub inject_group : Fields → Found → Result (Fields × Found)
  unfolding inject_services inject_tasks
  inject_group group f = and_then (inject_services group f) λ x. elim (field_array "Tasks" x.0) [
    | none ↦ ok x
    | some tasks ↦
        and_then (inject_tasks tasks x.1) λ y. ok (set_field "Tasks" (array y.0) x.0, y.1)
  ]

module _ (job_id file_provider_service : String) where
  abbrev group_error : String → NscaleError
  group_error what = nomad (append "task group in job '" (append job_id (append "' " what)))

  pub inject_groups : Values → Found → Result (Values × Found)
  unfolding inject_group
  inject_groups end f = ok (end, f)
  inject_groups (item v vs) f =
      and_then (ok_or (group_error "is not an object") (as_object v)) λ group.
        and_then (ok_or (group_error "is missing Name") (field_str "Name" group)) λ group_name.
          and_then (inject_group job_id group_name file_provider_service group f)
            λ x. and_then (inject_groups vs x.1) λ y. ok (item (object x.0) y.0, y.1)

-- `job_obj.get("ID")…or_else(|| job_obj.get("Name")…)`
unfoldable pub id_of : Fields → Option String
id_of job = elim (field_str "ID" job) [ none ↦ field_str "Name" job | some id ↦ some id ]

unfoldable pub inject_nscale_tags : Value → String → Result (Value × List JobRegistration)
unfolding id_of inject_groups
inject_nscale_tags job file_provider_service =
    and_then (ok_or (nomad "parsed job is not a JSON object") (as_object job)) λ job_obj.
      and_then (ok_or (nomad "parsed job is missing ID") (id_of job_obj)) λ job_id.
        and_then
          (ok_or (nomad (append "parsed job '" (append job_id "' is missing TaskGroups")))
            (field_array "TaskGroups" job_obj))
          λ groups.
            and_then
              (inject_groups job_id file_provider_service groups
                (record { seen = []; registrations = [] }))
              λ x. ok (object (set_field "TaskGroups" (array x.0) job_obj), x.1.registrations)
