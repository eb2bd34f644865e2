-- ===== src/Nomad/JobMutator/Registrations/Distinct.antt =====
-- job_mutator.rs: registrations that are distinct, and one that is added to them.
use nomad_scale_to_zero.Prelude.{
  String, ◌≡◌, refl, Bool, true, false, List, [], ◌∷◌, ◌++◌, any, all, not, ◌&&◌, ◌==◌, arith,
  eq_iff, if◌then◌else◌, Bool-cases, inl, inr,
}
use nomad_scale_to_zero.Core.Job.{JobRegistration}
use nomad_scale_to_zero.Nomad.JobMutator.{Triple, same_triple, Found, add_registration}

abbrev pub triple : JobRegistration → Triple
triple r = (r.job_id, r.service_name, r.nomad_group)

-- No two registrations agree in job, service and group.
abbrev pub distinct : List JobRegistration → Bool
distinct [] = true
distinct (r ∷ rs) = not (any (λ x. same_triple (triple r) (triple x)) rs) && distinct rs

-- What the set `seen` and the registrations keep while the job is walked.
abbrev pub Good : String → Found → Type 0
Good id f =
    ((t : Triple)
      → any (same_triple t) f.seen ≡ any (λ x. same_triple t (triple x)) f.registrations)
    × (distinct f.registrations ≡ true)
    × (all (λ r. r.job_id == id) f.registrations ≡ true)

any-snoc :
    (p : JobRegistration → Bool) (rs : List JobRegistration) (r : JobRegistration)
    → any p (rs ++ r ∷ []) ≡ (if p r then true else any p rs)
any-snoc p [] r = ground arith
any-snoc p (x ∷ rs) r = ground (arith, any-snoc p rs r)

all-snoc :
    (p : JobRegistration → Bool) (rs : List JobRegistration) (r : JobRegistration)
    → all p (rs ++ r ∷ []) ≡ (all p rs && p r)
all-snoc p [] r = ground arith
all-snoc p (x ∷ rs) r = ground (arith, all-snoc p rs r)

same_triple-sym : (a b : Triple) → same_triple a b ≡ same_triple b a
same_triple-sym a b = ground (
  arith,
  eq_iff a.0 b.0,
  eq_iff a.1 b.1,
  eq_iff a.2 b.2,
  eq_iff b.0 a.0,
  eq_iff b.1 a.1,
  eq_iff b.2 a.2,
)

distinct-snoc :
    (rs : List JobRegistration) (r : JobRegistration)
    → distinct rs ≡ true
    → any (λ x. same_triple (triple r) (triple x)) rs ≡ false
    → distinct (rs ++ r ∷ []) ≡ true
distinct-snoc [] r d n = refl
distinct-snoc (x ∷ rs) r d n = ground (
  arith,
  distinct-snoc rs r,
  any-snoc (λ y. same_triple (triple x) (triple y)) rs r,
  same_triple-sym (triple r) (triple x),
)

module _ (id group file : String) where
  pub added :
      (service : String) (f : Found)
      → Good id f
      → Good id (add_registration id group file service f)
  unfolding add_registration
  added service f (s, d, a) = elim (Bool-cases (any (same_triple t) f.seen)) [
    | inl known ↦ rw known (s, d, a)
    | inr fresh ↦ rw fresh (
      λ u. ground (
        arith,
        s u,
        any-snoc (λ x. same_triple u (triple x)) f.registrations r,
        same_triple-sym t u,
      ),
      distinct-snoc f.registrations r d (rw (← s t) fresh),
      ground (arith, all-snoc (λ x. x.job_id == id) f.registrations r, eq_iff id id),
    )
  ]
    where
      t : Triple
      t = (id, service, group)

      r : JobRegistration
      r = record { job_id = id; service_name = service; nomad_group = group }
