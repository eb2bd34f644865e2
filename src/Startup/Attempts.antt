-- ===== src/Startup/Attempts.antt =====
-- src/main.rs: how often the connection to Redis is tried.
use nomad_scale_to_zero.Prelude.{
  ℕ, zero, suc, ◌+◌, ◌≤◌, ◌<◌, String, Option, none, some, ◌≡◌, refl, arith, false, leb, ap,
}
use nomad_scale_to_zero.Core.Effect.{Call, Reply, done, refused}
use nomad_scale_to_zero.Startup.{Started, going, exited, max_retries, after_attempt, connect_redis}

module _ {W A : Type 0} (connect : Call W A) (sleep_second : W → W) where
  -- `n` attempts fail from `w` on, a second apart, and the next one is made in `v`.
  abbrev pub Fails : ℕ → W → W → Type 0
  Fails zero w v = w ≡ v
  Fails (suc n) w v =
      ((m : String) × ((connect w).0 ≡ refused m)) × Fails n (sleep_second (connect w).1) v

  -- The end of the loop with `left` attempts after the one that is made in `w`.
  abbrev pub Ends : ℕ → W → Option (Started A) × W → Type 0
  Ends left w (some (going store), v) =
      (n : ℕ) × (n ≤ left) × ((u : W) × Fails n w u × (connect u ≡ (done store, v)))
  Ends left w (some exited, v) =
      (u : W) × Fails left w u × ((m : String) × (connect u ≡ (refused m, v)))
  Ends left w (none, v) = ⊥

  further-Ends :
      (left : ℕ) (w w' : W) (m : String) (out : Option (Started A) × W)
      → connect w ≡ (refused m, w')
      → Ends left (sleep_second w') out
      → Ends (suc left) w out
  further-Ends left w w' m (some (going store), v) e (n, le, (u, fails, answer)) =
      (suc n, omega arith, (u, ((m, ap (λ (x : Reply A × W). x.0) e), rw e fails), answer))
  further-Ends left w w' m (some exited, v) e (u, fails, answer) =
      (u, ((m, ap (λ (x : Reply A × W). x.0) e), rw e fails), answer)
  further-Ends left w w' m (none, v) e h = elim h [ ]

  last_attempt-Ends :
      (w : W) (x : Reply A × W) (k : ℕ → W → Option (Started A) × W)
      → connect w ≡ x
      → Ends 0 w (after_attempt connect sleep_second 30 x k)
  last_attempt-Ends w (done store, v) k e = (0, omega arith, (w, refl, e))
  last_attempt-Ends w (refused m, v) k e = (w, refl, (m, e))

  -- One attempt that is not the last, with the attempts after it.
  attempt-Ends :
      (left attempt : ℕ) (w : W) (x : Reply A × W) (k : ℕ → W → Option (Started A) × W)
      → connect w ≡ x
      → attempt < max_retries
      → ((v : W) → Ends left v (k attempt v))
      → Ends (suc left) w (after_attempt connect sleep_second attempt x k)
  attempt-Ends left attempt w (done store, v) k e early later = (0, omega arith, (w, refl, e))
  attempt-Ends left attempt w (refused m, v) k e early later =
      let going_on : leb max_retries attempt ≡ false = ground arith in
      rw going_on (further-Ends left w v m (k attempt (sleep_second v)) e (later (sleep_second v)))

  connect_redis-Ends :
      (left attempt : ℕ) (w : W)
      → suc attempt + left ≡ max_retries
      → Ends left w (connect_redis connect sleep_second (suc left) attempt w)
  unfolding connect_redis
  connect_redis-Ends zero attempt w sum =
      let last : suc attempt ≡ 30 = omega arith in
      rw last (last_attempt-Ends w (connect w) (connect_redis connect sleep_second zero) refl)
  connect_redis-Ends (suc left) attempt w sum =
      attempt-Ends left (suc attempt) w (connect w) (connect_redis connect sleep_second (suc left))
        refl (omega arith) (λ (v : W). connect_redis-Ends left (suc attempt) v (omega arith))

  -- With thirty units of fuel the loop at the start always ends: either it goes on with the store
  -- of the first connection that succeeds, after at most 29 attempts that failed with a pause after
  -- each, or the process exits after the thirtieth failure.
  pub connects_or_exits : (w : W) → Ends 29 w (connect_redis connect sleep_second 30 0 w)
  connects_or_exits w = connect_redis-Ends 29 0 w refl
