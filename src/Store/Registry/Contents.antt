-- ===== src/Store/Registry/Contents.antt =====
-- registry.rs: what Redis holds after registrations, as a map from job ids.
use nomad_scale_to_zero.Prelude.{
  String, ◌≡◌, ◌≢◌, Option, none, some, List, [], ◌∷◌, ◌==◌, put, remove, arith, eq_iff, Bool-cases,
  inl, inr,
}
use nomad_scale_to_zero.Core.Job.{JobId, JobRegistration}
use nomad_scale_to_zero.Core.Effect.{done}
use nomad_scale_to_zero.Store.Redis.{CodecLaws, HashLaws}
use nomad_scale_to_zero.Store.Registry.{JobRegistry, registry_by_job_key, registry_by_service_key}
use nomad_scale_to_zero.Store.Registry.Caching.{Cached}

-- What the proxy, the admin API and the controller do with the registry.
pub data Change : Type 0 where
  registered : JobRegistration → Change
  deregistered : JobId → Change

-- The map that the changes make.
abbrev pub apply : Change → (JobId → Option JobRegistration) → JobId → Option JobRegistration
apply (registered reg) f = put reg.job_id reg f
apply (deregistered job) f = remove job f

unfoldable pub replay :
    List Change → (JobId → Option JobRegistration) → JobId → Option JobRegistration
replay [] f = f
replay (change ∷ rest) f = replay rest (apply change f)

module _ {W : Type 0} (r : JobRegistry W) (laws : HashLaws r.client) where
  open laws use {value}

  -- The hash by job holds what the map has.
  abbrev pub Present : (JobId → Option JobRegistration) → W → Type 0
  Present f w =
      (g : JobId) (reg : JobRegistration)
      → f g ≡ some reg
      → (t : String) × (r.codec.encode reg ≡ done t) × (value registry_by_job_key g w ≡ some t)

  -- It holds nothing else, and the hash by service no other jobs.
  pub record Holds (f : JobId → Option JobRegistration) (w : W) : Type 0 where
    pub absent : (g : JobId) → f g ≡ none → value registry_by_job_key g w ≡ none
    pub present : Present f w
    pub known :
        (g v : String) (reg : JobRegistration)
        → value registry_by_service_key g w ≡ some v
        → r.codec.decode v ≡ done reg
        → f reg.job_id ≢ none

  -- A registration that is cached.
  pub Cached-Present :
      (reg : JobRegistration) (t : String) (f : JobId → Option JobRegistration) (w w' : W)
      → Present f w
      → r.codec.encode reg ≡ done t
      → Cached r laws reg t w w'
      → Present (put reg.job_id reg f) w'
  Cached-Present reg t f w w' v e c g x n = elim (Bool-cases (reg.job_id == g)) [
    | inl same ↦ (t, ground (arith, e), ground (arith, c registry_by_job_key g))
    | inr other ↦
        (let (u, enc, there) = v g x (ground arith) in
          (u, enc, ground (arith, c registry_by_job_key g, there)))
  ]

  pub Cached-Holds :
      (codec : CodecLaws r.codec) (reg : JobRegistration) (t : String)
      (f : JobId → Option JobRegistration) (w w' : W)
      → Holds f w
      → r.codec.encode reg ≡ done t
      → Cached r laws reg t w w'
      → Holds (put reg.job_id reg f) w'
  Cached-Holds codec reg t f w w' v e c = record {
    absent = λ g n. ground (arith, c registry_by_job_key g, v.absent g);
    present = Cached-Present reg t f w w' v.present e c;
    known = λ g u x n d q. ground (
      arith,
      c registry_by_service_key g,
      v.known g u x,
      codec.decode-encode reg t e,
      eq_iff reg.job_id reg.job_id,
    );
  }
