-- ===== src/Store/Registry/Forgetting.antt =====
-- registry.rs: a lookup after a deregistration.
use nomad_scale_to_zero.Prelude.{String, ◌≡◌, ◌≢◌, refl, Option, none, some, arith, sym, ap, ◌∙◌}
use nomad_scale_to_zero.Core.Job.{JobId, JobRegistration}
use nomad_scale_to_zero.Core.Error.{Result, ok}
use nomad_scale_to_zero.Core.Effect.{Exec, Reply, done, refused, on, ◌>>◌}
use nomad_scale_to_zero.Core.Traits.{DurableRegistry}
use nomad_scale_to_zero.Store.Redis.{HashLaws}
use nomad_scale_to_zero.Store.Registry.{
  JobRegistry, registry_by_job_key, registry_by_service_key, get, get_from_hash, deregister,
  evicted, remove_cached_registration,
}
use nomad_scale_to_zero.Store.Registry.Caching.{>>=-eq-ok}
use nomad_scale_to_zero.Store.Registry.Removal.{
  Other, remove_cached_registration_by_job, remove_cached_registration_removes,
}

module _ {W : Type 0} (r : JobRegistry W) (laws : HashLaws r.client) (job : JobId)
    (alone : r.durable ≡ none) where
  open laws use {value}

  -- A lookup that finds no entry by job.
  pub forgotten :
      (u : W)
      → value registry_by_job_key job u ≡ none
      → ((v : String) → value registry_by_service_key job u ≡ some v → Other r laws job v)
      → (x y : Reply (Option String)) → (r.client.hget registry_by_job_key job u).0 ≡ x
      → (r.client.hget registry_by_service_key job (r.client.hget registry_by_job_key job u).1).0
        ≡ y
      → (reg : JobRegistration) → (get r job u).0 ≡ ok (some reg)
      → reg.job_id ≢ job
  unfolding get get_from_hash
  forgotten u b o (refused m) y e k reg g = absurd (ground arith)
  forgotten u b o (done (some t)) y e k reg g =
      absurd (ground (arith, laws.hget_answer registry_by_job_key job u (some t) e))
  forgotten u b o (done none) (refused m) e k reg g = absurd (ground arith)
  forgotten u b o (done none) (done none) e k reg g = absurd (ground arith)
  forgotten u b o (done none) (done (some t)) e k reg g =
      let u' : W = (r.client.hget registry_by_job_key job u).1 in
      o t
        (sym (laws.hget_value registry_by_job_key job u registry_by_service_key job)
          ∙ sym (laws.hget_answer registry_by_service_key job u' (some t) k))
        reg (ground arith)

  -- The rest of `deregister`.
  abbrev after_lookup : Option (DurableRegistry W) → Option JobRegistration → Exec W (Unit {0})
  after_lookup d existing = elim d [
    | none ↦ remove_cached_registration r job
    | some durable ↦
        durable.remove_registration job
        >> (λ w. on (remove_cached_registration r job) (evicted r durable existing) w)
  ]

  pub evicts :
      (w : W)
      → (deregister r job w).0 ≡ ok tt
      → (deregister r job w ≡ remove_cached_registration r job (get r job w).1)
  unfolding deregister
  evicts w h =
      let (a, e, looked) = >>=-eq-ok (get r job) (after_lookup r.durable) w tt h in
      looked ∙ ap (λ (d : Option (DurableRegistry W)). after_lookup d a (get r job w).1) alone

  -- Without a durable registry: after a deregistration that succeeds, a lookup of the job's id never
  -- answers with a registration of the job.
  pub deregister_forgets :
      (w : W) (reg : JobRegistration)
      → (deregister r job w).0 ≡ ok tt
      → (get r job (deregister r job w).1).0 ≡ ok (some reg)
      → reg.job_id ≢ job
  deregister_forgets w reg h g =
      let w₁ : W = (get r job w).1 in
      let same = evicts w h in
      let removed : (remove_cached_registration r job w₁).0 ≡ ok tt =
        ap (λ (x : Result (Unit {0}) × W). x.0) (sym same) ∙ h in
      forgotten (deregister r job w).1
        (rw same (remove_cached_registration_by_job r laws job w₁ removed))
        (λ (v : String) (k : value registry_by_service_key job (deregister r job w).1 ≡ some v).
          (remove_cached_registration_removes r laws job w₁ job v removed (rw same at k)).0)
        _ _ refl refl reg g
