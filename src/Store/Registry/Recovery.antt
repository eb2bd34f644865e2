-- ===== src/Store/Registry/Recovery.antt =====
-- registry.rs over client.rs of nscale-etcd: a registration that outlives the cache in Redis.
pub mod Tests
use nomad_scale_to_zero.Prelude.{String, Option, none, some, ◌≡◌, refl, sym, ap, ◌∙◌, arith}
use nomad_scale_to_zero.Core.Job.{JobId, JobRegistration}
use nomad_scale_to_zero.Core.Error.{Result, ok, err}
use nomad_scale_to_zero.Core.Effect.{Exec, Reply, done, refused, pure, ◌>>=◌, ◌>>◌}
use nomad_scale_to_zero.Store.Redis.{RedisHash, Codec, CodecLaws, HashLaws}
use nomad_scale_to_zero.Store.Registry.{
  JobRegistry, registry_by_job_key, registry_by_service_key, cache_registration, get_from_hash,
  get_durable, get, store_durably, register,
}
use nomad_scale_to_zero.Store.Registry.Caching.{>>=-eq-ok}
use nomad_scale_to_zero.Etcd.{EtcdClient, job_key, get_by_job_id, store_registration}
use nomad_scale_to_zero.Etcd
use nomad_scale_to_zero.Etcd.Laws.{EtcdLaws, stored, get_by_job_id-stored}

-- Redis and etcd are servers of their own: what is sent to Redis changes nothing in etcd.
pub record Apart {W : Type 0} (h : RedisHash W) (value : String → W → Option String) : Type 0 where
  pub hset_apart : (j f v : String) (w : W) (k : String) → value k (h.hset j f v w).1 ≡ value k w
  pub hget_apart : (j f : String) (w : W) (k : String) → value k (h.hget j f w).1 ≡ value k w

module _ {W : Type 0} (h : RedisHash W) (codec : Codec) (e : EtcdClient W) where
  -- A replica's registry, with etcd behind it.
  abbrev pub replica : JobRegistry W
  replica = record { client = h; codec = codec; durable = some (Etcd.service e) }

module _ {W : Type 0} (h : RedisHash W) (codec : Codec) (e : EtcdClient W) (laws : HashLaws h)
    (etcd_laws : EtcdLaws e.client) (codec_laws : CodecLaws e.codec)
    (apart : Apart h etcd_laws.value) where
  cached-apart :
      (reg : JobRegistration) (w : W) (k : String) (x : Reply String)
      → codec.encode reg ≡ x
      → etcd_laws.value k (cache_registration (replica h codec e) reg w).1 ≡ etcd_laws.value k w
  unfolding cache_registration
  cached-apart reg w k (refused m) q = ground arith
  cached-apart reg w k (done t) q =
      let w₁ : W = (h.hset registry_by_job_key reg.job_id t w).1 in
      ground (
        arith,
        apart.hset_apart registry_by_job_key reg.job_id t w k,
        apart.hset_apart registry_by_service_key reg.service_name t w₁ k,
      )

  -- The registration stands in etcd after it has been made.
  registered-stored :
      (reg : JobRegistration) (w : W)
      → (register (replica h codec e) reg w).0 ≡ ok tt
      → (t : String) × (e.codec.encode reg ≡ done t)
        × (etcd_laws.value (job_key e reg.job_id) (register (replica h codec e) reg w).1 ≡ some t)
  unfolding register store_durably
  registered-stored reg w ran =
      let r : JobRegistry W = replica h codec e in
      let (u, durable, rest) =
        >>=-eq-ok (store_durably r reg (some (Etcd.service e)))
          (λ (x : Unit {0}). cache_registration r reg) w tt ran in
      let (t, enc, at_job, at_service) = stored e etcd_laws codec_laws reg w _ refl durable in
      let w₁ : W = (store_registration e reg w).1 in
      (
        t,
        enc,
        ap (λ (z : Result (Unit {0}) × W). etcd_laws.value (job_key e reg.job_id) z.1) rest
            ∙ cached-apart reg w₁ (job_key e reg.job_id) _ refl
            ∙ at_job,
      )

  -- The rest of `get_durable`, once etcd has answered for the job.
  abbrev after_job : JobId → Option JobRegistration → Exec W (Option JobRegistration)
  after_job name by_job =
      (elim by_job [ some reg ↦ pure (some reg) | none ↦ Etcd.get_by_service_name e name ])
      >>= (λ hit. elim hit [
        | none ↦ pure none
        | some reg ↦ cache_registration (replica h codec e) reg >> pure (some reg)
      ])

  hit_cached :
      (reg : JobRegistration) (name : JobId) (w : W) (a : Option JobRegistration)
      (x : Result (Unit {0}))
      → (cache_registration (replica h codec e) reg w).0 ≡ x
      → (after_job name (some reg) w).0 ≡ ok a
      → a ≡ some reg
  hit_cached reg name w a (ok u) q g = ground arith
  hit_cached reg name w a (err f) q g = absurd (ground arith)

  durable_hit :
      (reg : JobRegistration) (t : String) (v : W) (a : Option JobRegistration)
      → e.codec.encode reg ≡ done t
      → etcd_laws.value (job_key e reg.job_id) v ≡ some t
      → (get_durable (replica h codec e) reg.job_id (Etcd.service e) v).0 ≡ ok a
      → a ≡ some reg
  unfolding get_durable
  durable_hit reg t v a enc there g =
      let v₁ : W = (get_by_job_id e reg.job_id v).1 in
      let (b, found, rest) = >>=-eq-ok (get_by_job_id e reg.job_id) (after_job reg.job_id) v a g in
      let same : b ≡ some reg =
        get_by_job_id-stored e etcd_laws codec_laws reg t v b there enc found in
      hit_cached reg reg.job_id v₁ a _ refl (
        ap (λ (c : Option JobRegistration). (after_job reg.job_id c v₁).0) (sym same)
        ∙ ap (λ (z : Result (Option JobRegistration) × W). z.0) (sym rest)
        ∙ g)

  recovered :
      (reg : JobRegistration) (t : String) (v : W) (a : Option JobRegistration)
      (x y : Reply (Option String))
      → e.codec.encode reg ≡ done t
      → etcd_laws.value (job_key e reg.job_id) v ≡ some t
      → laws.value registry_by_job_key reg.job_id v ≡ none
      → laws.value registry_by_service_key reg.job_id v ≡ none
      → (h.hget registry_by_job_key reg.job_id v).0 ≡ x
      → (h.hget registry_by_service_key reg.job_id (h.hget registry_by_job_key reg.job_id v).1).0
        ≡ y
      → (get (replica h codec e) reg.job_id v).0 ≡ ok a
      → a ≡ some reg
  unfolding get get_from_hash
  recovered reg t v a (refused m) y enc there none_job none_service q k g = absurd (ground arith)
  recovered reg t v a (done (some s)) y enc there none_job none_service q k g =
      absurd (ground (arith, laws.hget_answer registry_by_job_key reg.job_id v (some s) q))
  recovered reg t v a (done none) (refused m) enc there none_job none_service q k g =
      absurd (ground arith)
  recovered reg t v a (done none) (done (some s)) enc there none_job none_service q k g =
      let v₁ : W = (h.hget registry_by_job_key reg.job_id v).1 in
      absurd (
        ground (
          arith,
          laws.hget_answer registry_by_service_key reg.job_id v₁ (some s) k,
          laws.hget_value registry_by_job_key reg.job_id v registry_by_service_key reg.job_id,
        ))
  recovered reg t v a (done none) (done none) enc there none_job none_service q k g =
      let v₁ : W = (h.hget registry_by_job_key reg.job_id v).1 in
      let v₂ : W = (h.hget registry_by_service_key reg.job_id v₁).1 in
      durable_hit reg t v₂ a enc
        (apart.hget_apart registry_by_service_key reg.job_id v₁ (job_key e reg.job_id)
          ∙ apart.hget_apart registry_by_job_key reg.job_id v (job_key e reg.job_id)
          ∙ there)
        (ground arith)

  -- A registration that has succeeded with etcd behind the registry outlives the cache: in every later
  -- state in which etcd still holds what it held then and Redis has lost the entries under the job's
  -- id, as it has for a replica with a Redis of its own, a lookup of the job that succeeds answers with
  -- exactly that registration.
  pub register-survives :
      (reg : JobRegistration) (w lost : W) (a : Option JobRegistration)
      → (register (replica h codec e) reg w).0 ≡ ok tt
      → etcd_laws.value (job_key e reg.job_id) lost
        ≡ etcd_laws.value (job_key e reg.job_id) (register (replica h codec e) reg w).1
      → laws.value registry_by_job_key reg.job_id lost ≡ none
      → laws.value registry_by_service_key reg.job_id lost ≡ none
      → (get (replica h codec e) reg.job_id lost).0 ≡ ok a
      → a ≡ some reg
  register-survives reg w lost a ran kept none_job none_service g =
      let (t, enc, there) = registered-stored reg w ran in
      recovered reg t lost a _ _ enc (kept ∙ there) none_job none_service refl refl g
