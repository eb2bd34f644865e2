-- ===== src/Store/Registry/Others.antt =====
-- registry.rs: what a deregistration leaves of the other jobs' entries.
use nomad_scale_to_zero.Prelude.{String, ◌≡◌, ◌≢◌, refl, List, [], ◌∷◌, arith, eq_iff}
use nomad_scale_to_zero.Core.Job.{JobId, JobRegistration}
use nomad_scale_to_zero.Core.Error.{ok}
use nomad_scale_to_zero.Core.Effect.{Reply, done, refused}
use nomad_scale_to_zero.Store.Redis.{HashLaws}
use nomad_scale_to_zero.Store.Registry.{
  JobRegistry, registry_by_job_key, registry_by_service_key, remove_entries,
  remove_cached_registration,
}

module _ {W : Type 0} (r : JobRegistry W) (laws : HashLaws r.client) (job g : JobId) where
  open laws use {value}

  abbrev Left : W → W → Type 0
  Left w w' = value registry_by_job_key g w' ≡ value registry_by_job_key g w

  entry-Left :
      (f u : String) (rest : List (String × String)) (w : W) (x : Reply JobRegistration)
      (y : Reply (Unit {0}))
      → ((v : W) → (remove_entries r job rest v).0 ≡ ok tt → Left v (remove_entries r job rest v).1)
      → r.codec.decode u ≡ x
      → (r.client.hdel registry_by_service_key f w).0 ≡ y
      → (remove_entries r job ((f, u) ∷ rest) w).0 ≡ ok tt
      → Left w (remove_entries r job ((f, u) ∷ rest) w).1
  unfolding remove_entries
  entry-Left f u rest w (refused m) y ih d e h = absurd (ground arith)
  entry-Left f u rest w (done reg) (refused m) ih d e h = ground (arith, ih w)
  entry-Left f u rest w (done reg) (done v) ih d e h =
      let w₁ : W = (r.client.hdel registry_by_service_key f w).1 in
      ground (
        arith,
        ih w,
        ih w₁,
        laws.hdel_value registry_by_service_key f w (ground arith) registry_by_job_key g,
      )

  entries-Left :
      (es : List (String × String)) (w : W)
      → (remove_entries r job es w).0 ≡ ok tt
      → Left w (remove_entries r job es w).1
  unfolding remove_entries
  entries-Left [] w h = refl
  entries-Left ((f, u) ∷ rest) w h = entry-Left f u rest w _ _ (entries-Left rest) refl refl h

  removal-Left :
      (w : W) (x : Reply (List (String × String)))
      → (r.client.hgetall registry_by_service_key w).0 ≡ x
      → g ≢ job
      → (remove_cached_registration r job w).0 ≡ ok tt
      → Left w (remove_cached_registration r job w).1
  unfolding remove_cached_registration
  removal-Left w (refused m) e d h = absurd (ground arith)
  removal-Left w (done es) e d h =
      let w₁ : W = (r.client.hgetall registry_by_service_key w).1 in
      let w₂ : W = (remove_entries r job es w₁).1 in
      let looped : (remove_entries r job es w₁).0 ≡ ok tt = ground arith in
      let gone : (r.client.hdel registry_by_job_key job w₂).0 ≡ done tt = ground arith in
      ground (
        arith,
        laws.hgetall_value registry_by_service_key w registry_by_job_key g,
        entries-Left es w₁ looped,
        laws.hdel_value registry_by_job_key job w₂ gone registry_by_job_key g,
        eq_iff job g,
      )

-- The entries by job of the other jobs are kept.
pub remove_cached_registration_others :
    {W : Type 0} (r : JobRegistry W) (laws : HashLaws r.client) (job g : JobId) (w : W)
    → g ≢ job
    → (remove_cached_registration r job w).0 ≡ ok tt
    → laws.value registry_by_job_key g (remove_cached_registration r job w).1
      ≡ laws.value registry_by_job_key g w
remove_cached_registration_others r laws job g w d h = removal-Left r laws job g w _ refl d h
