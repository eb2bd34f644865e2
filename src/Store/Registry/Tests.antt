-- ===== src/Store/Registry/Tests.antt =====
-- registry.rs over the Redis in memory.
use nomad_scale_to_zero.Prelude.{◌≡◌, ◌≢◌, refl, List, Option, length, map, none, some, [], ◌∷◌}
use nomad_scale_to_zero.Core.Job.{JobId, JobRegistration}
use nomad_scale_to_zero.Core.Error.{ok}
use nomad_scale_to_zero.Core.Traits.{DurableRegistry}
use nomad_scale_to_zero.Core.Samples.{web}
use nomad_scale_to_zero.Store.Redis.{lookup}
use nomad_scale_to_zero.Store.Memory.{
  Memory, api, memory_hash, memory_laws, web_codec, web_codec_laws, at_key,
}
use nomad_scale_to_zero.Store.Registry.{
  JobRegistry, sync_from_durable, register, deregister, store_durably, get,
  remove_cached_registration, registry_by_job_key, registry_by_service_key,
}
use nomad_scale_to_zero.Store.Registry.RoundTrip.{get-register_job, get-register_service}
use nomad_scale_to_zero.Store.Registry.Contents.{Change, registered, deregistered, replay}
use nomad_scale_to_zero.Store.Registry.History.{Answers, perform_all, registry_refines_map}
use nomad_scale_to_zero.Store.Registry.Hydration.{sync_from_durable-hydrates}
use nomad_scale_to_zero.Store.Registry.Forgetting.{deregister_forgets}
use nomad_scale_to_zero.Store.Registry.Removal.{Other, remove_cached_registration_removes}

abbrev registry : JobRegistry Memory
registry = record { client = memory_hash; codec = web_codec; durable = none }

abbrev blank : Memory
blank key = []

web_registered : some web ≡ some web
unfolding register get lookup store_durably memory_laws
web_registered = get-register_job registry memory_laws web_codec_laws web blank (some web) refl refl

get-register_service_example : some web ≡ some web
unfolding register get lookup store_durably memory_laws
get-register_service_example =
    get-register_service registry memory_laws web_codec_laws web blank (some web) refl refl refl

-- Two jobs by service.
abbrev filled : Memory
filled = at_key registry_by_service_key (("web-svc", "{web}") ∷ ("api-svc", "{api}") ∷ []) blank

web_removed :
    Other registry memory_laws "web" "{api}"
    × (memory_laws.value registry_by_job_key "web"
          (remove_cached_registration registry "web" filled).1
        ≡ none)
unfolding remove_cached_registration lookup memory_laws
web_removed =
    remove_cached_registration_removes registry memory_laws "web" filled "api-svc" "{api}" refl refl

-- A job whose service has the name of the job that is deregistered.
abbrev namesake : Memory
namesake =
    at_key registry_by_job_key (("web", "{web}") ∷ [])
      (at_key registry_by_service_key (("web", "{api}") ∷ ("web-svc", "{web}") ∷ []) blank)

namesake_answers : api.job_id ≢ "web"
unfolding deregister remove_cached_registration get lookup memory_laws
namesake_answers = deregister_forgets registry memory_laws "web" refl namesake api refl refl

-- A job that is registered, one that is registered and deregistered.
abbrev changes : List Change
changes = registered web ∷ registered api ∷ deregistered "web" ∷ []

registry_refines_map_example :
    Answers registry memory_laws web_codec_laws refl "api"
      (replay changes (λ _. none) "api")
      (some api)
unfolding register deregister remove_cached_registration get lookup store_durably memory_laws
    perform_all
registry_refines_map_example =
    registry_refines_map registry memory_laws web_codec_laws refl changes blank "api" (some api)
      (λ j g. refl) refl refl

-- A durable registry that lists two registrations.
abbrev listing : DurableRegistry Memory
listing = record {
  store_registration = λ reg w. (ok tt, w);
  remove_registration = λ job w. (ok tt, w);
  get_by_job_id = λ job w. (ok none, w);
  get_by_service_name = λ name w. (ok none, w);
  list_all = λ w. (ok (web ∷ api ∷ []), w);
  watch_registrations = λ w. (ok [], w);
}

abbrev hydrated_registry : JobRegistry Memory
hydrated_registry = record registry { durable = some listing }

sync_from_durable-hydrates_example :
    (regs : List JobRegistration) × ((listing.list_all blank).0 ≡ ok regs)
    × (2 ≡ length regs)
    × ((job : JobId) (reg : JobRegistration) (a : Option JobRegistration)
        → replay (map registered regs) (λ _. none) job ≡ some reg
        → (get hydrated_registry job (sync_from_durable hydrated_registry blank).1).0 ≡ ok a
        → a ≡ some reg)
unfolding sync_from_durable lookup
sync_from_durable-hydrates_example =
    sync_from_durable-hydrates hydrated_registry memory_laws web_codec_laws listing blank 2 refl
      refl
