-- ===== src/Store/AutoDeregister.antt =====
-- crates/nscale-store/src/auto_deregister.rs: how often in a row Nomad did not know a job. `incr` and
-- `del` are the two one-line scripts; the Redis client is not part of the program. A counter is never
-- negative: nothing else writes its key.
pub mod Tests
use nomad_scale_to_zero.Prelude.{
  ℕ, suc, ◌+◌, ◌^◌, ◌<◌, ◌≤◌, ◌≡◌, String, Bool, true, false, ltb, arith, refl, if◌then◌else◌,
}
use nomad_scale_to_zero.Prelude.Text.{append, show}
use nomad_scale_to_zero.Core.Job.{JobId}
use nomad_scale_to_zero.Core.Error.{NscaleError, store, Result, ok, err}
use nomad_scale_to_zero.Core.Effect.{Exec, Call, Reply, done, refused, pure, throw, wrap, ◌>>=◌}
use nomad_scale_to_zero.Core.Traits.{MissingJobTracker}

pub record RedisCounters (W : Type 0) : Type 0 where
  pub incr : String → Call W ℕ
  pub del : String → Call W ℕ

abbrev pub auto_deregister_not_found_prefix : String
auto_deregister_not_found_prefix = "nscale:auto-deregister:not-found:"

abbrev pub key : JobId → String
key job = append auto_deregister_not_found_prefix job

module _ {W : Type 0} (c : RedisCounters W) where
  -- `u32::try_from(count)`
  pub count_in_range : JobId → ℕ → Exec W ℕ
  count_in_range job count w = if ltb count (2 ^ 32) then (ok count, w) else (
    err (
        store (
          append "missing-job counter for "
            (append job (append " exceeded u32 range: " (show count))))),
    w,
  )

  unfoldable pub increment_not_found : JobId → Exec W ℕ
  unfolding count_in_range
  increment_not_found job = do count ← wrap store (c.incr (key job)); count_in_range job count

  pub clear_not_found : JobId → Exec W (Unit {0})
  clear_not_found job = do _ ← wrap store (c.del (key job)); pure tt

  -- The tracker as its callers see it.
  abbrev pub service : MissingJobTracker W
  service = record { increment_not_found = increment_not_found; clear_not_found = clear_not_found }

-- What Redis documents of `INCR` and `DEL`, when they succeed.
pub record CounterLaws {W : Type 0} (c : RedisCounters W) : Type 0 where
  pub value : String → W → ℕ
  pub incr_answer : (k : String) (w : W) (n : ℕ) → (c.incr k w).0 ≡ done n → n ≡ value k w + 1
  pub incr_value :
      (k : String) (w : W) (n : ℕ)
      → (c.incr k w).0 ≡ done n
      → value k (c.incr k w).1 ≡ value k w + 1
  -- an increment whose reply is an error may have run
  pub incr_refused :
      (k : String) (w : W) (m : String)
      → (c.incr k w).0 ≡ refused m
      → value k (c.incr k w).1 ≤ value k w + 1
  pub del_value : (k : String) (w : W) (n : ℕ) → (c.del k w).0 ≡ done n → value k (c.del k w).1 ≡ 0

module _ {W : Type 0} (c : RedisCounters W) (laws : CounterLaws c) (job : JobId) where
  incremented_reply :
      (w : W) (n : ℕ) (x : Reply ℕ)
      → (c.incr (key job) w).0 ≡ x
      → (increment_not_found c job w).0 ≡ ok n
      → (x ≡ done n) × (n < 2 ^ 32)
  unfolding increment_not_found
  incremented_reply w n (done m) e h = (ground arith, ground arith)
  incremented_reply w n (refused m) e h = absurd (ground arith)

  cleared_reply :
      (w : W) (x : Reply ℕ)
      → (c.del (key job) w).0 ≡ x
      → (clear_not_found c job w).0 ≡ ok tt
      → (n : ℕ) × (x ≡ done n)
  unfolding clear_not_found
  cleared_reply w (done n) e h = (n, refl)
  cleared_reply w (refused m) e h = absurd (ground arith)

  pub incremented :
      (w : W) (n : ℕ)
      → (increment_not_found c job w).0 ≡ ok n
      → (n ≡ laws.value (key job) w + 1)
        × (n < 2 ^ 32)
        × (laws.value (key job) (increment_not_found c job w).1 ≡ n)
  unfolding increment_not_found
  incremented w n h =
      let (e, small) = incremented_reply w n _ refl h in
      let a = laws.incr_answer (key job) w n e in
      (a, small, ground (arith, a, laws.incr_value (key job) w n e))

  -- `k` misses in a row, each counted with success, after which the counter is at `n`.
  abbrev pub Misses : ℕ → W → ℕ → Type 0
  Misses ℕ.zero w n = laws.value (key job) w ≡ n
  Misses (suc k) w n =
      (m : ℕ) × ((increment_not_found c job w).0 ≡ ok m)
      × Misses k (increment_not_found c job w).1 n

  Misses-value : (k : ℕ) (w : W) (n : ℕ) → Misses k w n → n ≡ laws.value (key job) w + k
  Misses-value ℕ.zero w n h = ground arith
  Misses-value (suc k) w n (m, e, rest) =
      let (a, b, v) = incremented w m e in
      let later = Misses-value k (increment_not_found c job w).1 n rest in ground arith

  -- After a clear and `k` increments that all succeed the counter is at `k`: the tracker counts the
  -- misses since the last time that the job was seen, and no others.
  pub increment_not_found-clear :
      (k : ℕ) (w : W) (n : ℕ)
      → (clear_not_found c job w).0 ≡ ok tt
      → Misses k (clear_not_found c job w).1 n
      → n ≡ k
  unfolding clear_not_found
  increment_not_found-clear k w n h ms =
      let (m, e) = cleared_reply w _ refl h in
      let zeroed = laws.del_value (key job) w m e in
      ground (arith, zeroed, Misses-value k (clear_not_found c job w).1 n ms)
