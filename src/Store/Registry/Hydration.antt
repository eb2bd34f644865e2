-- ===== src/Store/Registry/Hydration.antt =====
-- registry.rs: the hydration of Redis from the durable registry.
use nomad_scale_to_zero.Prelude.{
  ℕ, ◌≡◌, refl, sym, ap, subst, ◌∙◌, Option, none, some, List, [], ◌∷◌, length, map, put, arith,
}
use nomad_scale_to_zero.Core.Job.{JobId, JobRegistration}
use nomad_scale_to_zero.Core.Error.{Result, ok}
use nomad_scale_to_zero.Core.Effect.{Exec, pure, ◌>>◌, ◌>>=◌}
use nomad_scale_to_zero.Core.Traits.{DurableRegistry}
use nomad_scale_to_zero.Store.Redis.{CodecLaws, HashLaws}
use nomad_scale_to_zero.Store.Registry.{
  JobRegistry, cache_registration, cache_all, sync_from_durable, get,
}
use nomad_scale_to_zero.Store.Registry.Caching.{>>=-eq-ok, cached_lem, get_by_job}
use nomad_scale_to_zero.Store.Registry.Contents.{registered, replay, Present, Cached-Present}

module _ {W : Type 0} (r : JobRegistry W) (laws : HashLaws r.client) where
  cache_all-Present :
      (regs : List JobRegistration) (f : JobId → Option JobRegistration) (w : W)
      → Present r laws f w
      → (cache_all r regs w).0 ≡ ok tt
      → Present r laws (replay (map registered regs) f) (cache_all r regs w).1
  unfolding cache_all replay
  cache_all-Present [] f w v h = v
  cache_all-Present (reg ∷ rest) f w v h =
      let (u, first, later) =
        >>=-eq-ok (cache_registration r reg) (λ (x : Unit {0}). cache_all r rest) w tt h in
      let (t, enc, c) = cached_lem r laws reg w (r.codec.encode reg) refl first in
      let w₁ : W = (cache_registration r reg w).1 in
      rw later (
        cache_all-Present rest (put reg.job_id reg f) w₁
          (Cached-Present r laws reg t f w w₁ v enc c)
          (ap (λ (z : Result (Unit {0}) × W). z.0) (sym later) ∙ h))

  -- What a hydration that counts `n` has done.
  abbrev Hydrated : DurableRegistry W → W → ℕ → W → Type 0
  Hydrated durable w n w' =
      (regs : List JobRegistration) × ((durable.list_all w).0 ≡ ok regs)
      × (n ≡ length regs)
      × Present r laws (replay (map registered regs) (λ _. none)) w'

  abbrev hydrate : DurableRegistry W → Exec W ℕ
  hydrate durable = durable.list_all >>= (λ regs. cache_all r regs >> pure (length regs))

  hydrate-Hydrated :
      (durable : DurableRegistry W) (w : W) (n : ℕ)
      → (hydrate durable w).0 ≡ ok n
      → Hydrated durable w n (hydrate durable w).1
  hydrate-Hydrated durable w n h =
      let (regs, listed, rest) =
        >>=-eq-ok durable.list_all (λ regs. cache_all r regs >> pure (length regs)) w n h in
      let w₁ : W = (durable.list_all w).1 in
      let (u, cached, last) =
        >>=-eq-ok (cache_all r regs) (λ (x : Unit {0}). pure (length regs)) w₁ n
          (ap (λ (z : Result ℕ × W). z.0) (sym rest) ∙ h) in
      let ended : hydrate durable w ≡ (ok (length regs), (cache_all r regs w₁).1) = rest ∙ last in
      (
        regs,
        listed,
        ground (arith, ended),
        rw ended (cache_all-Present regs (λ _. none) w₁ (λ g reg q. absurd (ground arith)) cached),
      )

  sync-hydrate :
      (durable : DurableRegistry W) (w : W)
      → r.durable ≡ some durable
      → sync_from_durable r w ≡ hydrate durable w
  unfolding sync_from_durable
  sync-hydrate durable w e = rw e

  sync-Hydrated :
      (durable : DurableRegistry W) (w : W) (n : ℕ)
      → r.durable ≡ some durable
      → (sync_from_durable r w).0 ≡ ok n
      → Hydrated durable w n (sync_from_durable r w).1
  sync-Hydrated durable w n e h =
      let same = sync-hydrate durable w e in
      subst (λ (z : Result ℕ × W). Hydrated durable w n z.1) (sym same)
        (hydrate-Hydrated durable w n (ap (λ (z : Result ℕ × W). z.0) (sym same) ∙ h))

  -- The hydration at the start, whatever Redis holds before: where it succeeds, it counts the
  -- registrations that the durable registry lists, and afterwards a lookup that succeeds of an id under
  -- which one is listed answers with the last one listed under that id.
  pub sync_from_durable-hydrates :
      (codec : CodecLaws r.codec) (durable : DurableRegistry W) (w : W) (n : ℕ)
      → r.durable ≡ some durable
      → (sync_from_durable r w).0 ≡ ok n
      → (regs : List JobRegistration) × ((durable.list_all w).0 ≡ ok regs)
        × (n ≡ length regs)
        × ((job : JobId) (reg : JobRegistration) (a : Option JobRegistration)
            → replay (map registered regs) (λ _. none) job ≡ some reg
            → (get r job (sync_from_durable r w).1).0 ≡ ok a
            → a ≡ some reg)
  sync_from_durable-hydrates codec durable w n e h =
      let (regs, listed, counted, held) = sync-Hydrated durable w n e h in
      (
        regs,
        listed,
        counted,
        λ job reg a found g.
            let (t, enc, there) = held job reg found in
            get_by_job r laws codec job reg t (sync_from_durable r w).1 enc there _ refl a g,
      )
