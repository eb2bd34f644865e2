-- ===== src/Store/Registry/RoundTrip.antt =====
-- registry.rs: lookups after a registration.
use nomad_scale_to_zero.Prelude.{◌≡◌, refl, Option, none, some, arith, eq_iff}
use nomad_scale_to_zero.Core.Job.{JobRegistration}
use nomad_scale_to_zero.Core.Error.{ok}
use nomad_scale_to_zero.Store.Redis.{CodecLaws, HashLaws}
use nomad_scale_to_zero.Store.Registry.{
  JobRegistry, registry_by_job_key, registry_by_service_key, get, register,
}
use nomad_scale_to_zero.Store.Registry.Caching.{register-Cached, get_by_job, get_by_service}

module _ {W : Type 0} (r : JobRegistry W) (laws : HashLaws r.client)
    (codec : CodecLaws r.codec) where
  -- After a registration has succeeded, with a durable registry or without, a lookup by its job id
  -- that succeeds answers with exactly that registration.
  pub get-register_job :
      (reg : JobRegistration) (w : W) (a : Option JobRegistration)
      → (register r reg w).0 ≡ ok tt
      → (get r reg.job_id (register r reg w).1).0 ≡ ok a
      → a ≡ some reg
  get-register_job reg w a h g =
      let (t, e, c) = register-Cached r laws reg w _ refl h in
      get_by_job r laws codec reg.job_id reg t (register r reg w).1 e
        (ground (arith, c registry_by_job_key reg.job_id, eq_iff reg.job_id reg.job_id)) _ refl a g

  -- After a registration has succeeded, a lookup by its service name that succeeds answers with exactly
  -- that registration, unless a job is registered under that name as its id.
  pub get-register_service :
      (reg : JobRegistration) (w : W) (a : Option JobRegistration)
      → (register r reg w).0 ≡ ok tt
      → laws.value registry_by_job_key reg.service_name (register r reg w).1 ≡ none
      → (get r reg.service_name (register r reg w).1).0 ≡ ok a
      → a ≡ some reg
  get-register_service reg w a h n g =
      let (t, e, c) = register-Cached r laws reg w _ refl h in
      get_by_service r laws codec reg.service_name reg t (register r reg w).1 e n
        (ground (
          arith,
          c registry_by_service_key reg.service_name,
          eq_iff reg.service_name reg.service_name,
        ))
        _ _ refl refl a g
