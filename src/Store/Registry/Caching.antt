-- ===== src/Store/Registry/Caching.antt =====
-- registry.rs: what a successful registration leaves in Redis, and what a lookup answers.
use nomad_scale_to_zero.Prelude.{
  String, ◌≡◌, ◌⊎◌, inl, inr, refl, sym, Option, none, some, ◌==◌, ◌&&◌, arith, if◌then◌else◌,
}
use nomad_scale_to_zero.Core.Job.{JobId, JobRegistration}
use nomad_scale_to_zero.Core.Error.{NscaleError, Result, ok, err}
use nomad_scale_to_zero.Core.Effect.{Exec, Reply, done, refused, ◌>>=◌}
use nomad_scale_to_zero.Store.Redis.{CodecLaws, HashLaws}
use nomad_scale_to_zero.Store.Registry.{
  JobRegistry, registry_by_job_key, registry_by_service_key, cache_registration, get_from_hash, get,
  register, store_durably,
}

pub >>=-eq-ok {ℓ} :
    {W : Type 0} {A B : Type ℓ} (m : Exec W A) (f : A → Exec W B) (w : W) (b : B)
    → ((m >>= f) w).0 ≡ ok b
    → (a : A) × ((m w).0 ≡ ok a) × ((m >>= f) w ≡ f a (m w).1)
>>=-eq-ok {A} {B} m f w b h = go (m w).0 refl
  where
    go : (x : Result A) → (m w).0 ≡ x → (a : A) × ((m w).0 ≡ ok a) × ((m >>= f) w ≡ f a (m w).1)
    go (ok a) e = (a, e, rw e)
    go (err x) e = absurd (ground arith)

pub Result-cases {ℓ} :
    {A : Type ℓ} (x : Result A) → ((a : A) × (x ≡ ok a)) ⊎ ((e : NscaleError) × (x ≡ err e))
Result-cases (ok a) = inl (a, refl)
Result-cases (err e) = inr (e, refl)

module _ {W : Type 0} (r : JobRegistry W) (laws : HashLaws r.client) where
  open laws use {value}

  -- The fields after a registration is cached as `t`.
  abbrev pub Cached : JobRegistration → String → W → W → Type 0
  Cached reg t w w' =
      (j g : String)
      → value j g w' ≡ (
          if (registry_by_service_key == j) && (reg.service_name == g)
          then some t
          else if (registry_by_job_key == j) && (reg.job_id == g)
          then some t
          else value j g w)

  pub cached_lem :
      (reg : JobRegistration) (w : W) (x : Reply String)
      → r.codec.encode reg ≡ x
      → (cache_registration r reg w).0 ≡ ok tt
      → (t : String) × (r.codec.encode reg ≡ done t) × Cached reg t w (cache_registration r reg w).1
  unfolding cache_registration
  cached_lem reg w (refused m) e h = absurd (ground arith)
  cached_lem reg w (done t) e h = (
    t,
    e,
    λ j g. ground (
      arith,
      laws.hset_value registry_by_job_key reg.job_id t w,
      laws.hset_value registry_by_job_key reg.job_id t w (ground arith) j g,
      laws.hset_value registry_by_service_key reg.service_name t
          (r.client.hset registry_by_job_key reg.job_id t w).1 (ground arith) j g,
    ),
  )

  pub get_from_hash_value :
      (key field : String) (w : W) (j g : String)
      → value j g (get_from_hash r key field w).1 ≡ value j g w
  unfolding get_from_hash
  get_from_hash_value key field w j g = ground (arith, laws.hget_value key field w j g)

  -- What a successful lookup in a hash has found.
  abbrev Found : String → String → W → Option JobRegistration → Type 0
  Found key field w none = value key field w ≡ none
  Found key field w (some reg) =
      (t : String) × (value key field w ≡ some t) × (r.codec.decode t ≡ done reg)

  get_from_hash_lem :
      (key field : String) (w : W) (x : Reply (Option String))
      → (r.client.hget key field w).0 ≡ x
      → (a : Option JobRegistration) → (get_from_hash r key field w).0 ≡ ok a
      → Found key field w a
  unfolding get_from_hash
  get_from_hash_lem key field w (refused m) e a h = absurd (ground arith)
  get_from_hash_lem key field w (done none) e none h = sym (laws.hget_answer key field w none e)
  get_from_hash_lem key field w (done none) e (some reg) h = absurd (ground arith)
  get_from_hash_lem key field w (done (some t)) e none h = absurd (ground arith)
  get_from_hash_lem key field w (done (some t)) e (some reg) h =
      (t, sym (laws.hget_answer key field w (some t) e), ground arith)

  -- A lookup that succeeds while Redis has the registration by job answers with it.
  pub get_by_job :
      (codec : CodecLaws r.codec) (name : JobId) (reg : JobRegistration) (t : String) (w : W)
      → r.codec.encode reg ≡ done t
      → value registry_by_job_key name w ≡ some t
      → (x : Reply (Option String)) → (r.client.hget registry_by_job_key name w).0 ≡ x
      → (a : Option JobRegistration) → (get r name w).0 ≡ ok a
      → a ≡ some reg
  unfolding get
  get_by_job codec name reg t w e v (refused m) q a h = absurd (ground arith)
  get_by_job codec name reg t w e v (done b) q a h =
      ground (arith, laws.hget_answer registry_by_job_key name w b q, codec.decode-encode reg t e)

  -- So does one that finds no entry by job and the registration by service.
  pub get_by_service :
      (codec : CodecLaws r.codec) (name : JobId) (reg : JobRegistration) (t : String) (w : W)
      → r.codec.encode reg ≡ done t
      → value registry_by_job_key name w ≡ none
      → value registry_by_service_key name w ≡ some t
      → (x y : Reply (Option String)) → (r.client.hget registry_by_job_key name w).0 ≡ x
      → (r.client.hget registry_by_service_key name (r.client.hget registry_by_job_key name w).1).0
        ≡ y
      → (a : Option JobRegistration) → (get r name w).0 ≡ ok a
      → a ≡ some reg
  unfolding get
  get_by_service codec name reg t w e n v (refused m) y q p a h = absurd (ground arith)
  get_by_service codec name reg t w e n v (done b) (refused m) q p a h =
      absurd (ground (arith, laws.hget_answer registry_by_job_key name w b q))
  get_by_service codec name reg t w e n v (done b) (done d) q p a h = ground (
    arith,
    laws.hget_answer registry_by_job_key name w b q,
    laws.hget_answer registry_by_service_key name (r.client.hget registry_by_job_key name w).1 d p,
    laws.hget_value registry_by_job_key name w registry_by_service_key name,
    codec.decode-encode reg t e,
  )

  pub register-Cached :
      (reg : JobRegistration) (w : W) (x : Result (Unit {0}))
      → (store_durably r reg r.durable w).0 ≡ x
      → (register r reg w).0 ≡ ok tt
      → (t : String) × (r.codec.encode reg ≡ done t)
        × Cached reg t (store_durably r reg r.durable w).1 (register r reg w).1
  unfolding register
  register-Cached reg w (err m) e h = absurd (ground arith)
  register-Cached reg w (ok u) e h =
      let (t, f, c) =
        cached_lem reg (store_durably r reg r.durable w).1 (r.codec.encode reg) refl
          (ground arith) in
      (t, f, λ j g. ground (arith, c j g))
