-- ===== src/Store/Registry/Removal.antt =====
-- registry.rs: what a deregistration leaves in Redis.
use nomad_scale_to_zero.Prelude.{
  inl, inr, sym, ◌∙◌, sym, ◌∙◌, subst, eq_refl, String, ◌≡◌, ◌≢◌, refl, none, some, List, [], ◌∷◌,
  ◌==◌, arith, eq_iff, Bool-cases, if◌then◌else◌,
}
use nomad_scale_to_zero.Core.Job.{JobId, JobRegistration}
use nomad_scale_to_zero.Core.Error.{Result, ok}
use nomad_scale_to_zero.Core.Effect.{Reply, done, refused}
use nomad_scale_to_zero.Store.Redis.{HashLaws, lookup}
use nomad_scale_to_zero.Store.Registry.{
  JobRegistry, registry_by_job_key, registry_by_service_key, remove_entries,
  remove_cached_registration,
}

module _ {W : Type 0} (r : JobRegistry W) (laws : HashLaws r.client) (job : JobId) where
  open laws use {value}

  -- A text that does not stand for a registration of the job.
  abbrev pub Other : String → Type 0
  Other v = (reg : JobRegistration) → r.codec.decode v ≡ done reg → reg.job_id ≢ job

  -- After the loop over `es`, the entries that are left and were among `es` are of other jobs, and
  -- nothing is new.
  abbrev Swept : List (String × String) → W → W → Type 0
  Swept es w w' =
      (f v : String)
      → value registry_by_service_key f w' ≡ some v
      → (value registry_by_service_key f w ≡ some v) × (lookup f es ≡ some v → Other v)

  Swept-keep :
      (g u : String) (es : List (String × String)) (w w' : W)
      → Other u
      → Swept es w w'
      → Swept ((g, u) ∷ es) w w'
  unfolding lookup
  Swept-keep g u es w w' o s f v e = elim (Bool-cases (g == f)) [
    | inl here ↦ ((s f v e).0, rw here (λ q. subst Other {x = u} {y = v} (cc) o))
    | inr there ↦ ((s f v e).0, rw there (s f v e).1)
  ]

  Swept-drop :
      (g u : String) (es : List (String × String)) (w w₁ w' : W)
      → ((f : String)
          → value registry_by_service_key f w₁
            ≡ (if g == f then none else value registry_by_service_key f w))
      → Swept es w₁ w'
      → Swept ((g, u) ∷ es) w w'
  unfolding lookup
  Swept-drop g u es w w₁ w' c s f v e = elim (Bool-cases (g == f)) [
    | inl here ↦ absurd (ground (arith, (s f v e).0, c f))
    | inr there ↦ (ground (arith, (s f v e).0, c f), rw there (s f v e).1)
  ]

  -- One round of the loop, with the later rounds.
  remove_entry-Swept :
      (g u : String) (rest : List (String × String)) (w : W) (x : Reply JobRegistration)
      (y : Reply (Unit {0}))
      → ((w₁ : W)
          → (remove_entries r job rest w₁).0 ≡ ok tt
          → Swept rest w₁ (remove_entries r job rest w₁).1)
      → r.codec.decode u ≡ x
      → (r.client.hdel registry_by_service_key g w).0 ≡ y
      → (remove_entries r job ((g, u) ∷ rest) w).0 ≡ ok tt
      → Swept ((g, u) ∷ rest) w (remove_entries r job ((g, u) ∷ rest) w).1
  unfolding remove_entries
  remove_entry-Swept g u rest w (refused m) y ih d e h = absurd (ground arith)
  remove_entry-Swept g u rest w (done reg) (refused m) ih d e h =
      elim (Bool-cases (reg.job_id == job)) [
        | inl same ↦ absurd (ground arith)
        | inr other ↦ subst (Swept ((g, u) ∷ rest) w) (ground arith) (
            Swept-keep g u rest w (remove_entries r job rest w).1
              (λ reg' d'. ground (arith, eq_iff reg.job_id job)) (ih w (ground arith)))
      ]
  remove_entry-Swept g u rest w (done reg) (done v) ih d e h =
      elim (Bool-cases (reg.job_id == job)) [
        | inl same ↦
            let w₁ : W = (r.client.hdel registry_by_service_key g w).1 in
            subst (Swept ((g, u) ∷ rest) w) (ground arith) (
              Swept-drop g u rest w w₁ (remove_entries r job rest w₁).1
                (λ f. ground (
                  arith,
                  laws.hdel_value registry_by_service_key g w (ground arith) registry_by_service_key
                      f,
                  eq_refl registry_by_service_key,
                ))
                (ih w₁ (ground arith)))
        | inr other ↦ subst (Swept ((g, u) ∷ rest) w) (ground arith) (
            Swept-keep g u rest w (remove_entries r job rest w).1
              (λ reg' d'. ground (arith, eq_iff reg.job_id job)) (ih w (ground arith)))
      ]

  remove_entries-Swept :
      (es : List (String × String)) (w : W)
      → (remove_entries r job es w).0 ≡ ok tt
      → Swept es w (remove_entries r job es w).1
  unfolding remove_entries lookup
  remove_entries-Swept [] w h = λ f v e. (e, λ q reg d. cc)
  remove_entries-Swept ((g, u) ∷ rest) w h =
      remove_entry-Swept g u rest w (r.codec.decode u) _ (remove_entries-Swept rest) refl refl h

  removal :
      (w : W) (x : Reply (List (String × String))) (y : Result (Unit {0}))
      → (r.client.hgetall registry_by_service_key w).0 ≡ x
      → ((es : List (String × String))
          → (remove_entries r job es (r.client.hgetall registry_by_service_key w).1).0 ≡ ok tt
          → Swept es
              (r.client.hgetall registry_by_service_key w).1
              (remove_entries r job es (r.client.hgetall registry_by_service_key w).1).1)
      → (remove_cached_registration r job w).0 ≡ ok tt
      → (f v : String)
      → value registry_by_service_key f (remove_cached_registration r job w).1 ≡ some v
      → Other v
        × (value registry_by_job_key job (remove_cached_registration r job w).1 ≡ none)
        × (value registry_by_service_key f w ≡ some v)
  unfolding remove_cached_registration
  removal w (refused m) y e swept h f v k = absurd (ground arith)
  removal w (done es) y e swept h f v k =
      let w₁ : W = (r.client.hgetall registry_by_service_key w).1 in
      let w₂ : W = (remove_entries r job es w₁).1 in
      let looped : (remove_entries r job es w₁).0 ≡ ok tt = ground arith in
      let gone : (r.client.hdel registry_by_job_key job w₂).0 ≡ done tt = ground arith in
      let last : (remove_cached_registration r job w).1
          ≡ (r.client.hdel registry_by_job_key job w₂).1 =
        ground arith in
      let cleared = laws.hdel_value registry_by_job_key job w₂ gone in
      let kept : value registry_by_service_key f w₂ ≡ some v =
        sym (cleared registry_by_service_key f) ∙ (rw last at k) in
      let (old, other) = swept es looped f v kept in
      let before =
        sym (laws.hgetall_value registry_by_service_key w registry_by_service_key f) ∙ old in
      (
        other (laws.hgetall_answer registry_by_service_key w es e f ∙ before),
        rw last (cleared registry_by_job_key job ∙ rw (eq_refl job)),
        before,
      )

module _ {W : Type 0} (r : JobRegistry W) (laws : HashLaws r.client) (job : JobId) where
  by_job_removed :
      (w : W) (x : Reply (List (String × String)))
      → (r.client.hgetall registry_by_service_key w).0 ≡ x
      → (remove_cached_registration r job w).0 ≡ ok tt
      → laws.value registry_by_job_key job (remove_cached_registration r job w).1 ≡ none
  unfolding remove_cached_registration
  by_job_removed w (refused m) e h = absurd (ground arith)
  by_job_removed w (done es) e h =
      let w₁ : W = (r.client.hgetall registry_by_service_key w).1 in
      let w₂ : W = (remove_entries r job es w₁).1 in
      let looped : (remove_entries r job es w₁).0 ≡ ok tt = ground arith in
      let gone : (r.client.hdel registry_by_job_key job w₂).0 ≡ done tt = ground arith in
      let last : (remove_cached_registration r job w).1
          ≡ (r.client.hdel registry_by_job_key job w₂).1 =
        ground arith in
      let cleared = laws.hdel_value registry_by_job_key job w₂ gone in
      rw last (cleared registry_by_job_key job ∙ rw (eq_refl job))

  -- The entry by job is gone, whatever the other hash holds.
  pub remove_cached_registration_by_job :
      (w : W)
      → (remove_cached_registration r job w).0 ≡ ok tt
      → laws.value registry_by_job_key job (remove_cached_registration r job w).1 ≡ none
  remove_cached_registration_by_job w h = by_job_removed w _ refl h

-- After the cached registrations of a job have been removed with success, no text by service stands
-- for a registration of the job, under whatever service name, and the entry by job is gone.
pub remove_cached_registration_removes :
    {W : Type 0} (r : JobRegistry W) (laws : HashLaws r.client) (job : JobId) (w : W) (f v : String)
    → (remove_cached_registration r job w).0 ≡ ok tt
    → laws.value registry_by_service_key f (remove_cached_registration r job w).1 ≡ some v
    → Other r laws job v
      × (laws.value registry_by_job_key job (remove_cached_registration r job w).1 ≡ none)
remove_cached_registration_removes r laws job w f v h k =
    let (other, gone, before) =
      removal r laws job w _ (ok tt) refl (λ es. remove_entries-Swept r laws job es _) h f v k in
    (other, gone)

-- An entry by service that is there afterwards was there before.
pub remove_cached_registration_before :
    {W : Type 0} (r : JobRegistry W) (laws : HashLaws r.client) (job : JobId) (w : W) (f v : String)
    → (remove_cached_registration r job w).0 ≡ ok tt
    → laws.value registry_by_service_key f (remove_cached_registration r job w).1 ≡ some v
    → laws.value registry_by_service_key f w ≡ some v
remove_cached_registration_before r laws job w f v h k =
    let (other, gone, before) =
      removal r laws job w _ (ok tt) refl (λ es. remove_entries-Swept r laws job es _) h f v k in
    before
