-- ===== src/Store/Registry.antt =====
-- crates/nscale-store/src/registry.rs: registrations in two Redis hashes, by job and by service, in
-- front of an optional durable registry.
pub mod Caching
pub mod RoundTrip
pub mod Removal
pub mod Others
pub mod Forgetting
pub mod Contents
pub mod History
pub mod Hydration
pub mod Recovery
pub mod Tests
use nomad_scale_to_zero.Prelude.{
  ℕ, String, Bool, Option, none, some, List, [], ◌∷◌, ◌==◌, length, if◌then◌else◌,
}
use nomad_scale_to_zero.Core.Job.{JobId, JobRegistration}
use nomad_scale_to_zero.Core.Error.{NscaleError, store, json, Result, ok, err}
use nomad_scale_to_zero.Core.Effect.{Exec, pure, ignore, also, on, wrap, from, map_err, ◌>>=◌, ◌>>◌}
use nomad_scale_to_zero.Core.Traits.{DurableRegistry}
use nomad_scale_to_zero.Core.Services
use nomad_scale_to_zero.Store.Redis.{RedisHash, Codec}

abbrev pub registry_by_job_key : String
registry_by_job_key = "nscale:jobs"

abbrev pub registry_by_service_key : String
registry_by_service_key = "nscale:jobs:services"

pub record JobRegistry (W : Type 0) : Type 0 where
  pub client : RedisHash W
  pub codec : Codec
  pub durable : Option (DurableRegistry W)

module _ {W : Type 0} (r : JobRegistry W) where
  pub encode_registration : JobRegistration → Exec W String
  encode_registration reg = from (map_err store (r.codec.encode reg))

  -- `serde_json::from_str(&value)?`
  abbrev decode : String → Exec W JobRegistration
  decode value = from (map_err json (r.codec.decode value))

  pub cache_registration : JobRegistration → Exec W (Unit {0})
  unfolding encode_registration
  cache_registration reg = do
    value ← encode_registration reg
    wrap store (r.client.hset registry_by_job_key reg.job_id value)
    wrap store (r.client.hset registry_by_service_key reg.service_name value)

  -- The loop over the entries by service.
  pub remove_entries : JobId → List (String × String) → Exec W (Unit {0})
  remove_entries job [] = pure tt
  remove_entries job ((service_name, value) ∷ rest) =
      let more = remove_entries job rest in
      do
        reg ← decode value
        if reg.job_id == job
            then wrap store (r.client.hdel registry_by_service_key service_name) >> more
            else more

  pub remove_cached_registration : JobId → Exec W (Unit {0})
  unfolding remove_entries
  remove_cached_registration job = do
    service_entries ← wrap store (r.client.hgetall registry_by_service_key)
    remove_entries job service_entries
    wrap store (r.client.hdel registry_by_job_key job)

  pub get_from_hash : String → String → Exec W (Option JobRegistration)
  get_from_hash key field = do
    value ← wrap store (r.client.hget key field)
    elim value [ none ↦ pure none | some v ↦ decode v >>= λ reg. pure (some reg) ]

  -- `for reg in &regs { self.cache_registration(reg).await?; }`
  pub cache_all : List JobRegistration → Exec W (Unit {0})
  unfolding cache_registration
  cache_all [] = pure tt
  cache_all (reg ∷ rest) = let more = cache_all rest in cache_registration reg >> more

  pub sync_from_durable : Exec W ℕ
  unfolding cache_all
  sync_from_durable = elim r.durable [
    | none ↦ pure 0
    | some durable ↦ do regs ← durable.list_all; cache_all regs; pure (length regs)
  ]

  -- `if let Some(durable) = &self.durable { durable.store_registration(reg).await?; }`
  pub store_durably : JobRegistration → Option (DurableRegistry W) → Exec W (Unit {0})
  store_durably reg none = pure tt
  store_durably reg (some durable) = durable.store_registration reg

  pub register : JobRegistration → Exec W (Unit {0})
  unfolding cache_registration
  register reg = store_durably reg r.durable >> cache_registration reg

  -- The lookup in the durable registry, by job and then by service, which refills the cache.
  pub get_durable : JobId → DurableRegistry W → Exec W (Option JobRegistration)
  unfolding cache_registration
  get_durable lookup durable = do
    by_job ← durable.get_by_job_id lookup
    hit ← elim by_job [ some reg ↦ pure (some reg) | none ↦ durable.get_by_service_name lookup ]
    elim hit [ none ↦ pure none | some reg ↦ cache_registration reg >> pure (some reg) ]

  pub get : JobId → Exec W (Option JobRegistration)
  unfolding get_from_hash get_durable
  get lookup = do
    by_job ← get_from_hash registry_by_job_key lookup
    elim by_job [
      | some reg ↦ pure (some reg)
      | none ↦ do
        by_service ← get_from_hash registry_by_service_key lookup
        elim by_service [
          | some reg ↦ pure (some reg)
          | none ↦ elim r.durable [ none ↦ pure none | some durable ↦ get_durable lookup durable ]
        ]
    ]

  -- `if let Some(reg) = existing.as_ref() && let Err(…) = durable.store_registration(reg).await`
  pub restore : DurableRegistry W → Option JobRegistration → W → W
  restore durable none w = w
  restore durable (some reg) w = ignore (durable.store_registration reg) w

  -- The eviction from Redis after the durable removal: an error restores the durable registration.
  pub evicted : DurableRegistry W → Option JobRegistration → Result (Unit {0}) → Exec W (Unit {0})
  unfolding restore
  evicted durable existing (ok u) w = (ok u, w)
  evicted durable existing (err e) w = (err e, restore durable existing w)

  pub deregister : JobId → Exec W (Unit {0})
  unfolding get remove_cached_registration evicted
  deregister job = do
    existing ← get job
    elim r.durable [
      | none ↦ remove_cached_registration job
      | some durable ↦ do
        durable.remove_registration job
        λ w. on (remove_cached_registration job) (evicted durable existing) w
    ]

  pub decode_all : List (String × String) → Result (List JobRegistration)
  decode_all [] = ok []
  decode_all ((key, value) ∷ rest) =
      let more = decode_all rest in
      elim (map_err json (r.codec.decode value)) [
        | err e ↦ err e
        | ok reg ↦ elim more [ err e ↦ err e | ok regs ↦ ok (reg ∷ regs) ]
      ]

  -- With no cached entry, the durable list, which refills the cache.
  pub list_durable : Exec W (List JobRegistration)
  unfolding cache_all
  list_durable = elim r.durable [
    | none ↦ pure []
    | some durable ↦ do regs ← durable.list_all; cache_all regs; pure regs
  ]

  pub list_all : Exec W (List JobRegistration)
  unfolding decode_all list_durable
  list_all = do
    by_service ← wrap store (r.client.hgetall registry_by_service_key)
    entries ← elim by_service [
      | [] ↦ wrap store (r.client.hgetall registry_by_job_key)
      | e ∷ es ↦ pure (e ∷ es)
    ]
    elim entries [ [] ↦ list_durable | e ∷ es ↦ from (decode_all (e ∷ es)) ]

  -- The registry as its callers see it.
  abbrev pub service : Services.JobRegistry W
  service = record { register = register; deregister = deregister; get = get; list_all = list_all }
