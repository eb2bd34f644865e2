-- ===== src/Nomad/JobMutator/Registrations.antt =====
-- job_mutator.rs: the registrations that a submission returns.
pub mod Distinct
use nomad_scale_to_zero.Prelude.{
  String, ◌≡◌, refl, Bool, true, false, Option, none, some, List, [], ◌∷◌, ◌++◌, any, all, not,
  ◌&&◌, ◌==◌, arith, eq_iff, if◌then◌else◌, Bool-cases, inl, inr, subst,
}
use nomad_scale_to_zero.Prelude.Json.{
  Value, Values, end, item, Fields, as_object, array, object, field_array, field_str, or_insert,
}
use nomad_scale_to_zero.Core.Job.{JobRegistration}
use nomad_scale_to_zero.Core.Error.{NscaleError, Result, ok, err, and_then, ok_or}
use nomad_scale_to_zero.Nomad.JobMutator.Tags.{has_traefik_enabled, collect_router_names}
use nomad_scale_to_zero.Nomad.JobMutator.Registrations.Distinct.{triple, distinct, Good, added}
use nomad_scale_to_zero.Nomad.JobMutator.{
  Triple, same_triple, Found, add_registration, inject_tags, inject_service, inject_service_tags,
  inject_services, inject_tasks, inject_group, inject_groups, id_of, inject_nscale_tags,
}

-- What is found is good, where the walk succeeds.
abbrev Sound {ℓ} : {A : Type ℓ} → String → Result (A × Found) → Type 0
Sound id (ok x) = Good id x.1
Sound id (err e) = Unit

module _ {ℓ κ} {A : Type ℓ} {B : Type κ} (id : String) where
  ok_or-Sound :
      (o : Option A) (e : NscaleError) (k : A → Result (B × Found))
      → ((a : A) → Sound id (k a))
      → Sound id (and_then (ok_or e o) k)
  ok_or-Sound none e k h = tt
  ok_or-Sound (some a) e k h = h a

  and_then-Sound :
      (r : Result (A × Found)) (k : A × Found → Result (B × Found))
      → Sound id r
      → ((x : A × Found) → Good id x.1 → Sound id (k x))
      → Sound id (and_then r k)
  and_then-Sound (ok x) k g h = h x g
  and_then-Sound (err e) k g h = tt

  option-Sound :
      (o : Option A) (y : Result (B × Found)) (k : A → Result (B × Found))
      → Sound id y
      → ((a : A) → Sound id (k a))
      → Sound id (elim o [ none ↦ y | some a ↦ k a ])
  option-Sound none y k g h = g
  option-Sound (some a) y k g h = h a

module _ (id group file : String) where
  names-Sound :
      (names : List String) (y : Result (Value × Found))
      (k : String → List String → Result (Value × Found))
      → Sound id y
      → ((n : String) (ns : List String) → Sound id (k n ns))
      → Sound id (elim names [ [] ↦ y | n ∷ ns ↦ k n ns ])
  names-Sound [] y k g h = g
  names-Sound (n ∷ ns) y k g h = h n ns

  tags-Sound :
      (service_name : String) (service : Fields) (tags : Values) (f : Found)
      → Good id f
      → Sound id (inject_tags id group file service_name service tags f)
  unfolding inject_tags
  tags-Sound service_name service tags f g = elim (Bool-cases (has_traefik_enabled tags)) [
    | inl enabled ↦ rw enabled (
        names-Sound (collect_router_names tags) _ _ tt
          (λ n ns. added id group file service_name f g))
    | inr plain ↦ rw plain g
  ]

  service-Sound : (v : Value) (f : Found) → Good id f → Sound id (inject_service id group file v f)
  unfolding inject_service
  service-Sound v f g = ok_or-Sound id (as_object v) _ _ λ service.
      ok_or-Sound id (field_str "Name" service) _ _ λ service_name.
        ok_or-Sound id (field_array "Tags" (or_insert "Tags" (array end) service)) _ _
          λ tags. tags-Sound service_name (or_insert "Tags" (array end) service) tags f g

  service_tags-Sound :
      (vs : Values) (f : Found) → Good id f → Sound id (inject_service_tags id group file vs f)
  unfolding inject_service_tags
  service_tags-Sound end f g = g
  service_tags-Sound (item v vs) f g =
      and_then-Sound id (inject_service id group file v f) _ (service-Sound v f g) λ x h.
        and_then-Sound id (inject_service_tags id group file vs x.1) _ (service_tags-Sound vs x.1 h)
          λ y h. h

  services-Sound :
      (owner : Fields) (f : Found) → Good id f → Sound id (inject_services id group file owner f)
  unfolding inject_services
  services-Sound owner f g = option-Sound id (field_array "Services" owner) _ _ g λ services.
      and_then-Sound id (inject_service_tags id group file services f) _
        (service_tags-Sound services f g) λ x h. h

  tasks-Sound : (vs : Values) (f : Found) → Good id f → Sound id (inject_tasks id group file vs f)
  unfolding inject_tasks
  tasks-Sound end f g = g
  tasks-Sound (item v vs) f g = ok_or-Sound id (as_object v) _ _ λ task.
      and_then-Sound id (inject_services id group file task f) _ (services-Sound task f g) λ x h.
        and_then-Sound id (inject_tasks id group file vs x.1) _ (tasks-Sound vs x.1 h) λ y h. h

  group-Sound :
      (owner : Fields) (f : Found) → Good id f → Sound id (inject_group id group file owner f)
  unfolding inject_group
  group-Sound owner f g =
      and_then-Sound id (inject_services id group file owner f) _ (services-Sound owner f g) λ x h.
        option-Sound id (field_array "Tasks" x.0) _ _ h λ tasks.
          and_then-Sound id (inject_tasks id group file tasks x.1) _ (tasks-Sound tasks x.1 h)
            λ y h. h

groups-Sound :
    (id file : String) (vs : Values) (f : Found) → Good id f → Sound id (inject_groups id file vs f)
unfolding inject_groups
groups-Sound id file end f g = g
groups-Sound id file (item v vs) f g = ok_or-Sound id (as_object v) _ _ λ owner.
    ok_or-Sound id (field_str "Name" owner) _ _ λ group.
      and_then-Sound id (inject_group id group file owner f) _ (group-Sound id group file owner f g)
        λ x h.
          and_then-Sound id (inject_groups id file vs x.1) _ (groups-Sound id file vs x.1 h)
            λ y h. h

abbrev nothing : Found
nothing = record { seen = []; registrations = [] }

-- The walk that a submission makes when it succeeds.
walked :
    (job : Fields) (id file : String) (x : Value × List JobRegistration)
    → id_of job ≡ some id
    → inject_nscale_tags (object job) file ≡ ok x
    → (groups : Values) × (vs : Values) × (f : Found) × (inject_groups id file groups nothing
        ≡ ok (vs, f))
      × (f.registrations ≡ x.1)
unfolding inject_nscale_tags
walked job id file x e h = go (field_array "TaskGroups" job) refl
  where
    finished :
        (groups : Values) (r : Result (Values × Found))
        → inject_groups id file groups nothing ≡ r
        → field_array "TaskGroups" job ≡ some groups
        → (vs : Values) × (f : Found) × (inject_groups id file groups nothing ≡ ok (vs, f))
          × (f.registrations ≡ x.1)
    finished groups (ok y) w k = (y.0, y.1, w, ground arith)
    finished groups (err d) w k = absurd (ground arith)

    go :
        (o : Option Values)
        → field_array "TaskGroups" job ≡ o
        → (groups : Values) × (vs : Values) × (f : Found) × (inject_groups id file groups nothing
            ≡ ok (vs, f))
          × (f.registrations ≡ x.1)
    go none k = absurd (ground arith)
    go (some groups) k =
        let (vs, f, walk, listed) = finished groups _ refl k in (groups, vs, f, walk, listed)

-- A submission that succeeds returns registrations of the submitted job only, and never two for the
-- same service and group, however many services of the job carry Traefik tags under one name.
pub registrations_distinct :
    (job : Fields) (id file : String) (x : Value × List JobRegistration)
    → id_of job ≡ some id
    → inject_nscale_tags (object job) file ≡ ok x
    → (distinct x.1 ≡ true) × (all (λ r. r.job_id == id) x.1 ≡ true)
unfolding inject_nscale_tags
registrations_distinct job id file x e h =
    let (groups, vs, f, walk, listed) = walked job id file x e h in
    let g : Good id f =
      subst (Sound id) walk (groups-Sound id file groups nothing (λ t. refl, refl, refl)) in
    subst (λ rs. (distinct rs ≡ true) × (all (λ r. r.job_id == id) rs ≡ true)) listed (g.1, g.2)
