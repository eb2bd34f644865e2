-- ===== src/Store/Registry/History.antt =====
-- registry.rs without a durable registry, as a map from job ids to registrations.
use nomad_scale_to_zero.Prelude.{
  String, ◌≡◌, ◌≢◌, refl, sym, ap, ◌∙◌, Option, none, some, List, [], ◌∷◌, ◌==◌, put, remove, arith,
  eq_iff, Bool-cases, inl, inr,
}
use nomad_scale_to_zero.Core.Job.{JobId, JobRegistration}
use nomad_scale_to_zero.Core.Error.{Result, ok}
use nomad_scale_to_zero.Core.Effect.{Exec, pure, ◌>>◌}
use nomad_scale_to_zero.Store.Redis.{CodecLaws, HashLaws}
use nomad_scale_to_zero.Store.Registry.{
  JobRegistry, registry_by_job_key, registry_by_service_key, get, get_from_hash, register,
  deregister, store_durably, remove_cached_registration,
}
use nomad_scale_to_zero.Store.Registry.Caching.{
  >>=-eq-ok, register-Cached, get_from_hash_value, get_by_job,
}
use nomad_scale_to_zero.Store.Registry.Contents.{
  Change, registered, deregistered, apply, replay, Holds, Cached-Holds,
}
use nomad_scale_to_zero.Store.Registry.Removal.{
  remove_cached_registration_by_job, remove_cached_registration_removes,
  remove_cached_registration_before,
}
use nomad_scale_to_zero.Store.Registry.Others.{remove_cached_registration_others}
use nomad_scale_to_zero.Store.Registry.Forgetting.{evicts, forgotten}

module _ {W : Type 0} (r : JobRegistry W) where
  abbrev pub perform : Change → Exec W (Unit {0})
  perform (registered reg) = register r reg
  perform (deregistered job) = deregister r job

  -- The changes one after the other, each of which succeeds.
  unfoldable pub perform_all : List Change → Exec W (Unit {0})
  perform_all [] = pure tt
  perform_all (change ∷ rest) = let more = perform_all rest in perform change >> more

module _ {W : Type 0} (r : JobRegistry W) (laws : HashLaws r.client) (codec : CodecLaws r.codec)
    (alone : r.durable ≡ none) where
  open laws use {value}

  get_value :
      (job : JobId) (w : W) (x y : Result (Option JobRegistration))
      → (get_from_hash r registry_by_job_key job w).0 ≡ x
      → (get_from_hash r registry_by_service_key job
          (get_from_hash r registry_by_job_key job w).1).0
        ≡ y
      → (j g : String) → value j g (get r job w).1 ≡ value j g w
  unfolding get
  get_value job w x y e k j g = ground (
    arith,
    alone,
    get_from_hash_value r laws registry_by_job_key job w j g,
    get_from_hash_value r laws registry_by_service_key job
        (get_from_hash r registry_by_job_key job w).1 j g,
  )

  undurable : (reg : JobRegistration) (w : W) → (store_durably r reg r.durable w).1 ≡ w
  unfolding store_durably
  undurable reg w = rw alone

  register-Holds :
      (reg : JobRegistration) (f : JobId → Option JobRegistration) (w : W)
      → Holds r laws f w
      → (register r reg w).0 ≡ ok tt
      → Holds r laws (put reg.job_id reg f) (register r reg w).1
  register-Holds reg f w v h =
      let (t, e, c) = register-Cached r laws reg w _ refl h in
      Cached-Holds r laws codec reg t f w (register r reg w).1 v e (rw (undurable reg w) at c)

  removed-Holds :
      (job : JobId) (f : JobId → Option JobRegistration) (w : W)
      → Holds r laws f w
      → (remove_cached_registration r job w).0 ≡ ok tt
      → Holds r laws (remove job f) (remove_cached_registration r job w).1
  removed-Holds job f w v h = record {
    absent = λ g n. elim (Bool-cases (job == g)) [
      | inl same ↦
          (let e : job ≡ g = ground (arith, eq_iff job g) in
            rw (← e) (remove_cached_registration_by_job r laws job w h))
      | inr other ↦
          remove_cached_registration_others r laws job g w (ground (arith, eq_iff job g)) h
          ∙ v.absent g (ground arith)
    ];
    present = λ g x n.
        let other : g ≢ job = λ q. ground (arith, eq_iff job g) in
        let (t, enc, there) = v.present g x (ground arith) in
        (t, enc, remove_cached_registration_others r laws job g w other h ∙ there);
    known = λ g u x n d q. ground (
      arith,
      v.known g u x (remove_cached_registration_before r laws job w g u h n) d,
      (remove_cached_registration_removes r laws job w g u h n).0 x d,
      eq_iff job x.job_id,
    );
  }

  same-Holds :
      (f : JobId → Option JobRegistration) (w w' : W)
      → ((j g : String) → value j g w' ≡ value j g w)
      → Holds r laws f w
      → Holds r laws f w'
  same-Holds f w w' same v = record {
    absent = λ g n. same registry_by_job_key g ∙ v.absent g n;
    present = λ g x n.
        let (t, enc, there) = v.present g x n in (t, enc, same registry_by_job_key g ∙ there);
    known = λ g u x n. v.known g u x (sym (same registry_by_service_key g) ∙ n);
  }

  deregister-Holds :
      (job : JobId) (f : JobId → Option JobRegistration) (w : W)
      → Holds r laws f w
      → (deregister r job w).0 ≡ ok tt
      → Holds r laws (remove job f) (deregister r job w).1
  deregister-Holds job f w v h =
      let w₁ : W = (get r job w).1 in
      let same = evicts r laws job alone w h in
      let removed : (remove_cached_registration r job w₁).0 ≡ ok tt =
        ap (λ (x : Result (Unit {0}) × W). x.0) (sym same) ∙ h in
      let before : Holds r laws f w₁ = same-Holds f w w₁ (get_value job w _ _ refl refl) v in
      rw same (removed-Holds job f w₁ before removed)

  perform-Holds :
      (change : Change) (f : JobId → Option JobRegistration) (w : W)
      → Holds r laws f w
      → (perform r change w).0 ≡ ok tt
      → Holds r laws (apply change f) (perform r change w).1
  perform-Holds (registered reg) f w v h = register-Holds reg f w v h
  perform-Holds (deregistered job) f w v h = deregister-Holds job f w v h

  perform_all-Holds :
      (changes : List Change) (f : JobId → Option JobRegistration) (w : W)
      → Holds r laws f w
      → (perform_all r changes w).0 ≡ ok tt
      → Holds r laws (replay changes f) (perform_all r changes w).1
  unfolding perform_all replay
  perform_all-Holds [] f w v h = v
  perform_all-Holds (change ∷ rest) f w v h =
      let (u, first, later) =
        >>=-eq-ok (perform r change) (λ (x : Unit {0}). perform_all r rest) w tt h in
      let w₁ : W = (perform r change w).1 in
      rw later (
        perform_all-Holds rest (apply change f) w₁ (perform-Holds change f w v first)
          (ap (λ (z : Result (Unit {0}) × W). z.0) (sym later) ∙ h))

  -- What a lookup of the job may answer, by what the map has.
  abbrev pub Answers : JobId → Option JobRegistration → Option JobRegistration → Type 0
  Answers job (some reg) a = a ≡ some reg
  Answers job none a = (reg : JobRegistration) → a ≡ some reg → reg.job_id ≢ job

  Holds-Answers :
      (f : JobId → Option JobRegistration) (w : W) (job : JobId) (m a : Option JobRegistration)
      → Holds r laws f w
      → f job ≡ m
      → (get r job w).0 ≡ ok a
      → Answers job m a
  Holds-Answers f w job (some reg) a v e g =
      let (t, enc, there) = v.present job reg e in
      get_by_job r laws codec job reg t w enc there _ refl a g
  Holds-Answers f w job none a v e g = λ reg q.
      forgotten r laws job alone w (v.absent job e)
        (λ u n reg' d same. v.known job u reg' n d (ap f same ∙ e)) _ _ refl refl reg (g ∙ ap ok q)

  -- Without a durable registry the registry is a map from job ids: after any registrations and
  -- deregistrations that succeed, from empty hashes on, a lookup of an id that succeeds answers with the
  -- last registration under the id, if it was not deregistered since, and else never with a
  -- registration of that job.
  pub registry_refines_map :
      (changes : List Change) (w : W) (job : JobId) (a : Option JobRegistration)
      → ((j g : String) → value j g w ≡ none)
      → (perform_all r changes w).0 ≡ ok tt
      → (get r job (perform_all r changes w).1).0 ≡ ok a
      → Answers job (replay changes (λ _. none) job) a
  registry_refines_map changes w job a blank h g =
      let empty : Holds r laws (λ _. none) w = record {
        absent = λ g' n. blank registry_by_job_key g';
        present = λ g' reg n. absurd (ground arith);
        known = λ g' u reg n d. absurd (ground (arith, blank registry_by_service_key g'));
      } in
      Holds-Answers (replay changes (λ _. none)) (perform_all r changes w).1 job _ a
        (perform_all-Holds changes (λ _. none) w empty h) refl g
