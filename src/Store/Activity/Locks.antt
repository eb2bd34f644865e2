-- ===== src/Store/Activity/Locks.antt =====
-- activity.rs: the locks of several replicas.
use nomad_scale_to_zero.Prelude.{
  ℕ, String, ◌≡◌, ◌∙◌, ◌≢◌, refl, true, Option, none, some, arith, eq_iff, ◌⊎◌, inl, inr,
}
use nomad_scale_to_zero.Core.Error.{ok}
use nomad_scale_to_zero.Core.Effect.{Reply, done, refused}
use nomad_scale_to_zero.Store.Activity.{
  RedisKeys, RedisActivityStore, lock_key, try_acquire_lock, release_script, release_lock,
}

-- What Redis documents of `SET NX PX`, `DEL` and `EVAL`. A script runs as one step or not at all, and
-- a client that reports an error does not know which.
pub record LockLaws {W : Type 0} (c : RedisKeys W) : Type 0 where
  pub set_free :
      (k v : String) (ttl : ℕ) (w : W) (x : String)
      → (c.set_nx_px k v ttl w).0 ≡ done (some x)
      → (c.get k w ≡ none) × (c.get k (c.set_nx_px k v ttl w).1 ≡ some v)
  pub del_gone : (k : String) (w : W) → c.get k (c.del k w).1 ≡ none
  pub eval_runs :
      (f : W → ℕ × W) (w : W) (n : ℕ)
      → (c.eval f w).0 ≡ done n
      → (k : String) → c.get k (c.eval f w).1 ≡ c.get k (f w).1
  pub eval_fails :
      (f : W → ℕ × W) (w : W) (m : String)
      → (c.eval f w).0 ≡ refused m
      → ((k : String) → c.get k (c.eval f w).1 ≡ c.get k w)
        ⊎ ((k : String) → c.get k (c.eval f w).1 ≡ c.get k (f w).1)

module _ {W : Type 0} (a : RedisActivityStore W) (laws : LockLaws a.client) where
  acquired_reply :
      (key : String) (ttl : ℕ) (w : W) (x : Reply (Option String))
      → (a.client.set_nx_px (lock_key key) a.instance_id ttl w).0 ≡ x
      → (try_acquire_lock a key ttl w).0 ≡ ok true
      → (y : String) × (x ≡ done (some y))
  unfolding try_acquire_lock
  acquired_reply key ttl w (done (some y)) e h = (y, refl)
  acquired_reply key ttl w (done none) e h = absurd (ground arith)
  acquired_reply key ttl w (refused m) e h = absurd (ground arith)

  -- A replica that has acquired a lock holds it, and nobody held it before.
  pub acquired :
      (key : String) (ttl : ℕ) (w : W)
      → (try_acquire_lock a key ttl w).0 ≡ ok true
      → (a.client.get (lock_key key) w ≡ none)
        × (a.client.get (lock_key key) (try_acquire_lock a key ttl w).1 ≡ some a.instance_id)
  unfolding try_acquire_lock
  acquired key ttl w h =
      let (y, e) = acquired_reply key ttl w _ refl h in
      let (free, held) = laws.set_free (lock_key key) a.instance_id ttl w y e in
      (free, ground arith)

  released :
      (key other : String) (w : W) (x : Reply ℕ)
      → (a.client.eval (release_script a (lock_key key)) w).0 ≡ x
      → a.client.get (lock_key key) w ≡ some other
      → other ≢ a.instance_id
      → a.client.get (lock_key key) (release_lock a key w).1 ≡ some other
  unfolding release_lock release_script
  released key other w (done n) e h d =
      ground (arith, laws.eval_runs _ w n e (lock_key key), eq_iff other a.instance_id)
  released key other w (refused m) e h d = elim (laws.eval_fails _ w m e) [
    | inl kept ↦ ground (arith, kept (lock_key key))
    | inr ran ↦ ground (arith, ran (lock_key key), eq_iff other a.instance_id)
  ]

-- Once a replica has acquired a lock, then in any later state in which the lock has not changed,
-- another replica on the same Redis neither acquires the lock nor frees it by its own release, whether
-- that succeeds or fails.
pub lock_exclusive :
    {W : Type 0} (a : RedisActivityStore W) (laws : LockLaws a.client) (id key : String)
    (ttl ttl' : ℕ) (w v : W)
    → id ≢ a.instance_id
    → (try_acquire_lock a key ttl w).0 ≡ ok true
    → a.client.get (lock_key key) v ≡ a.client.get (lock_key key) (try_acquire_lock a key ttl w).1
    → let b : RedisActivityStore W = record a { instance_id = id } in
      ((try_acquire_lock b key ttl' v).0 ≢ ok true)
      × (a.client.get (lock_key key) (release_lock b key v).1 ≡ some a.instance_id)
lock_exclusive {W} a laws id key ttl ttl' w v d h same =
    let b : RedisActivityStore W = record a { instance_id = id } in
    let held : a.client.get (lock_key key) v ≡ some a.instance_id =
      same ∙ (acquired a laws key ttl w h).1 in
    (
      λ q. ground (arith, (acquired b laws key ttl' v q).0),
      released b laws key a.instance_id v _ refl held (λ e. d (cc)),
    )

release_reply :
    {W : Type 0} (a : RedisActivityStore W) (key : String) (w : W) (x : Reply ℕ)
    → (a.client.eval (release_script a (lock_key key)) w).0 ≡ x
    → (release_lock a key w).0 ≡ ok tt
    → (n : ℕ) × (x ≡ done n)
unfolding release_lock
release_reply a key w (done n) e h = (n, refl)
release_reply a key w (refused m) e h = absurd (ground arith)

-- A replica's own successful release frees the lock that it holds.
pub release_frees :
    {W : Type 0} (a : RedisActivityStore W) (laws : LockLaws a.client) (key : String) (w : W)
    → a.client.get (lock_key key) w ≡ some a.instance_id
    → (release_lock a key w).0 ≡ ok tt
    → a.client.get (lock_key key) (release_lock a key w).1 ≡ none
unfolding release_lock release_script
release_frees a laws key w held h =
    let (n, e) = release_reply a key w _ refl h in
    ground (
      arith,
      laws.eval_runs _ w n e (lock_key key),
      laws.del_gone (lock_key key) w,
      eq_iff a.instance_id a.instance_id,
    )
