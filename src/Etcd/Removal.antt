-- ===== src/Etcd/Removal.antt =====
-- client.rs of nscale-etcd: what a removal leaves.
use nomad_scale_to_zero.Prelude.{
  String, true, Option, none, some, List, [], ◌∷◌, ◌≡◌, ◌≢◌, refl, arith, ◌==◌, eq_iff, any,
  if◌then◌else◌, Bool-cases, Option-cases, inl, inr, ◌⊎◌,
}
use text.Mathlib.TextPositions.{starts_with-append}
use nomad_scale_to_zero.Prelude.Text.{starts_with}
use nomad_scale_to_zero.Core.Job.{JobId, JobRegistration}
use nomad_scale_to_zero.Core.Error.{Result, ok, err, and_then-eq-ok}
use nomad_scale_to_zero.Core.Effect.{Reply, done, refused}
use nomad_scale_to_zero.Store.Redis.{lookup}
use nomad_scale_to_zero.Etcd.Laws.{applied, EtcdLaws, txn_done}
use nomad_scale_to_zero.Etcd.{
  TxnOp, KeyValues, EtcdClient, services_prefix, job_key, service_key, apply_txn,
  decode_registration, keys_of_job, service_keys_for_job, deletions, remove_registration,
}

module _ {W : Type 0} (c : EtcdClient W) (laws : EtcdLaws c.client) (job : JobId) where
  open laws use {value}

  -- A text that does not stand for a registration of the job.
  abbrev pub Other : String → Type 0
  Other v = (reg : JobRegistration) → c.codec.decode v ≡ done reg → reg.job_id ≢ job

  applied-deletions :
      (k : String) (keys : List String) (v : Option String)
      → applied k (deletions c job keys) v
        ≡ (if any (λ x. x == k) keys then none else if job_key c job == k then none else v)
  unfolding applied deletions
  applied-deletions k [] v = ground arith
  applied-deletions k (x ∷ keys) v =
      ground (arith, applied-deletions k keys v, applied-deletions k keys none)

  -- A key among the answer is listed, or its value is of another job.
  listed :
      (kvs : KeyValues) (keys : List String) (k v : String)
      → keys_of_job c job kvs ≡ ok keys
      → lookup k kvs ≡ some v
      → (any (λ x. x == k) keys ≡ true) ⊎ Other v
  unfolding keys_of_job lookup
  listed [] keys k v h l = absurd (ground arith)
  listed ((j, u) ∷ kvs) keys k v h l =
      let (reg, d, rest) = and_then-eq-ok (decode_registration c u) _ keys h in
      let (more, m, kept) = and_then-eq-ok (keys_of_job c job kvs) _ keys rest in
      elim (Bool-cases (j == k)) [
        | inl here ↦ elim (Bool-cases (reg.job_id == job)) [
          | inl own ↦ inl (ground (arith, here, own, kept))
          | inr foreign ↦
              inr λ r q same. ground (arith, eq_iff reg.job_id job, foreign, d, q, l, here)
        ]
        | inr there ↦ elim (listed kvs more k v m (ground (arith, there, l))) [
          | inl found ↦ inl (ground (arith, found, kept))
          | inr o ↦ inr o
        ]
      ]

  removal :
      (w : W) (x : Reply KeyValues) (y : Result (List String))
      → (c.client.get_prefix (services_prefix c) w).0 ≡ x
      → (service_keys_for_job c job w).0 ≡ y
      → (remove_registration c job w).0 ≡ ok tt
      → (kvs : KeyValues) × (keys : List String) × (x ≡ done kvs)
        × (keys_of_job c job kvs ≡ ok keys)
        × ((k : String)
            → value k (remove_registration c job w).1
              ≡ applied k (deletions c job keys) (value k w))
  unfolding remove_registration service_keys_for_job
  removal w (refused m) y e f h = absurd (ground arith)
  removal w (done kvs) (err z) e f h = absurd (ground arith)
  removal w (done kvs) (ok keys) e f h =
      let w₁ : W = (c.client.get_prefix (services_prefix c) w).1 in
      let ops : List TxnOp = deletions c job keys in
      let known : keys_of_job c job kvs ≡ ok keys = ground arith in
      let ran : (apply_txn c ops w₁).0 ≡ ok tt = ground arith in
      let went : (c.client.txn ops w₁).0 ≡ done tt = txn_done c ops w₁ _ refl ran in
      (
        kvs,
        keys,
        refl,
        known,
        λ k.
            ground (arith, laws.txn_value ops w₁ went k, laws.prefix_value (services_prefix c) w k),
      )

  job_gone :
      (w : W)
      → (remove_registration c job w).0 ≡ ok tt
      → value (job_key c job) (remove_registration c job w).1 ≡ none
  job_gone w h =
      let (kvs, keys, e, known, after) = removal w _ _ refl refl h in
      ground (
        arith,
        after (job_key c job),
        applied-deletions (job_key c job) keys (value (job_key c job) w),
        eq_iff (job_key c job) (job_key c job),
      )

  left_foreign :
      (w : W) (service v : String)
      → (remove_registration c job w).0 ≡ ok tt
      → value (service_key c service) (remove_registration c job w).1 ≡ some v
      → Other v
  left_foreign w service v h k =
      let (kvs, keys, e, known, after) = removal w _ _ refl refl h in
      let s : String = service_key c service in
      let under : starts_with (services_prefix c) s ≡ true =
        starts_with-append (services_prefix c) service in
      let before : lookup s kvs ≡ value s w =
        laws.prefix_answer (services_prefix c) w kvs e s under in
      elim (listed kvs keys s v known
        (ground (arith, before, after s, applied-deletions s keys (value s w), k))) [
          | inl gone ↦
              absurd (ground (arith, after s, applied-deletions s keys (value s w), k, gone))
          | inr o ↦ o
        ]

  -- After a removal that succeeds, the entry by job is gone, and under every service name there is
  -- either no entry or a text that does not stand for a registration of the job, whatever services it
  -- had.
  pub remove_registration-removes :
      (w : W) (service : String)
      → (remove_registration c job w).0 ≡ ok tt
      → (value (job_key c job) (remove_registration c job w).1 ≡ none)
        × ((value (service_key c service) (remove_registration c job w).1 ≡ none)
            ⊎ ((v : String) × (value (service_key c service) (remove_registration c job w).1
                  ≡ some v)
                × Other v))
  remove_registration-removes w service h = (
    job_gone w h,
    elim (Option-cases (value (service_key c service) (remove_registration c job w).1)) [
      | inl gone ↦ inl gone
      | inr (v, k) ↦ inr (v, k, left_foreign w service v h k)
    ],
  )
