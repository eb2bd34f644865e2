-- ===== src/Store/Activity/Tests.antt =====
-- activity.rs over a Redis in memory: the owners of the locks, the scores and the clock.
use nomad_scale_to_zero.Prelude.{
  ℕ, String, ◌≡◌, ◌≢◌, refl, true, Option, none, some, List, [], ◌∷◌, any, ◌==◌, ne_of_false, arith,
  eq_iff, is_some, if◌then◌else◌,
}
use nomad_scale_to_zero.Core.Error.{ok}
use nomad_scale_to_zero.Core.Effect.{done, refused}
use nomad_scale_to_zero.Store.Activity.{
  Cutoff, RedisKeys, RedisActivityStore, lock_key, try_acquire_lock, release_lock, release_script,
}
use nomad_scale_to_zero.Store.Activity.Locks.{LockLaws, lock_exclusive, release_frees}
use nomad_scale_to_zero.Store.Activity.Instance.{instance_id, new, replicas_exclude}
use nomad_scale_to_zero.Store.Activity.Idle.{SetLaws, in_range}

pub record Memory : Type 0 where
  pub owner : String → Option String
  pub web_score : Option ℕ
  pub clock : ℕ

abbrev pub own : String → Option String → Memory → Memory
own k o m = record m { owner = λ j. if k == j then o else m.owner j }

-- The sorted set holds one member, `web`.
abbrev pub keys : RedisKeys Memory
keys = record {
  zadd = λ k t m w.
      if m == "web" then (done tt, record w { web_score = some t }) else (refused "full", w);
  zrangebyscore = λ k b w. (done (if in_range w.web_score b then "web" ∷ [] else []), w);
  zscore = λ k m w. (done (if m == "web" then w.web_score else none), w);
  zrem = λ k m w. (done 1, record w { web_score = none });
  set_nx_px = λ k v ttl w.
      if is_some (w.owner k) then (done none, w) else (done (some "OK"), own k (some v) w);
  get = λ k w. w.owner k;
  del = λ k w. (1, own k none w);
  eval = λ f w. (done (f w).0, (f w).1);
}

pub keys_locks : LockLaws keys
keys_locks = record {
  set_free = λ k v ttl w x h. (ground arith, ground (arith, eq_iff k k));
  del_gone = λ k w. ground (arith, eq_iff k k);
  eval_runs = λ f w n h k. refl;
  eval_fails = λ f w m h. absurd (ground arith);
}

abbrev pub score_of : String → Memory → Option ℕ
score_of m w = if m == "web" then w.web_score else none

pub keys_zadd :
    (k m : String) (t : ℕ) (w : Memory)
    → (keys.zadd k t m w).0 ≡ done tt
    → score_of m (keys.zadd k t m w).1 ≡ some t
keys_zadd k m t w h = ground arith

pub keys_range :
    (k m : String) (b : Cutoff) (w : Memory) (es : List String)
    → (keys.zrangebyscore k b w).0 ≡ done es
    → any (λ e. e == m) es ≡ in_range (score_of m w) b
keys_range k m b w es h = ground (arith, eq_iff m "web", eq_iff "web" m)

unfoldable pub keys_set : SetLaws keys
keys_set = record {
  score = λ k m w. score_of m w;
  zadd_score = keys_zadd;
  range_members = keys_range;
}

abbrev pub replica : String → RedisActivityStore Memory
replica id = record { client = keys; instance_id = id; now = λ w. w.clock }

abbrev pub start : Memory
start = record { owner = λ k. none; web_score = none; clock = 100 }

-- The lock is held, and the clock has moved on.
abbrev pub meanwhile : Memory
meanwhile = record (own (lock_key "scale-down") (some "a") start) { clock = 200 }

second_replica_excluded :
    ((try_acquire_lock (replica "b") "scale-down" 5 meanwhile).0 ≢ ok true)
    × (keys.get (lock_key "scale-down") (release_lock (replica "b") "scale-down" meanwhile).1
        ≡ some "a")
unfolding try_acquire_lock
second_replica_excluded =
    lock_exclusive (replica "a") keys_locks "b" "scale-down" 5 5 start meanwhile
      (ne_of_false "b" "a" refl) refl refl

abbrev store_of : ℕ → RedisActivityStore Memory
store_of pid = replica (instance_id 100 pid)

replicas_exclude_example :
    let y = (try_acquire_lock (store_of 1) "scale-down" 5 start).1 in
    ((try_acquire_lock (store_of 2) "scale-down" 5 y).0 ≢ ok true)
    × (keys.get (lock_key "scale-down") (release_lock (store_of 2) "scale-down" y).1
        ≡ some (store_of 1).instance_id)
unfolding try_acquire_lock new
replicas_exclude_example =
    replicas_exclude (λ url. done url) (λ config. done keys) (λ client w. (done tt, w))
      (λ w. w.clock) (λ w. some w.clock) "redis://redis" "scale-down" 1 2 5 5 start start start
      (try_acquire_lock (store_of 1) "scale-down" 5 start).1 (store_of 1) (store_of 2) refl refl
      keys_locks (omega arith) (omega arith) (omega arith) (omega arith)
      (λ e. absurd (ground (arith, e.1))) refl refl

store_of_name : (store_of 16).instance_id ≡ "nscale-64-10"
unfolding instance_id
store_of_name = refl

abbrev held : Memory
held = own (lock_key "scale-down") (some "a") start

release_frees_key :
    keys.get (lock_key "scale-down") (release_lock (replica "a") "scale-down" held).1 ≡ none
unfolding release_lock release_script
release_frees_key = release_frees (replica "a") keys_locks "scale-down" held refl refl

abbrev later : Memory
later = record { owner = λ k. none; web_score = some 100; clock = 130 }
