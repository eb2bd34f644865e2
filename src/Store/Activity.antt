-- ===== src/Store/Activity.antt =====
-- crates/nscale-store/src/activity.rs: the sorted set of the jobs' last requests, and the locks. The
-- Redis client is not part of the program: `RedisKeys` is what the store uses of it. Scores and
-- durations are in milliseconds; a cutoff may lie before the epoch.
pub mod Locks
pub mod Idle
pub mod Instance
pub mod Tests
use nomad_scale_to_zero.Prelude.{
  ℕ, ◌-◌, String, Bool, true, false, Option, none, some, List, leb, ◌==◌, is_some, if◌then◌else◌,
}
use nomad_scale_to_zero.Prelude.Text.{append}
use nomad_scale_to_zero.Core.Job.{JobId}
use nomad_scale_to_zero.Core.Error.{store, Result}
use nomad_scale_to_zero.Core.Effect.{Exec, Call, pure, wrap, ◌>>=◌, ◌>>◌}
use nomad_scale_to_zero.Core.Traits.{ActivityStore}

pub data Cutoff : Type 0 where
  at before_epoch : ℕ → Cutoff

-- `get` and `del` are what a script may call; `eval` runs a script as one step.
pub record RedisKeys (W : Type 0) : Type 0 where
  pub zadd : String → ℕ → String → Call W (Unit {0})
  pub zrangebyscore : String → Cutoff → Call W (List String)
  pub zscore : String → String → Call W (Option ℕ)
  pub zrem : String → String → Call W ℕ
  pub set_nx_px : String → String → ℕ → Call W (Option String)
  pub get : String → W → Option String
  pub del : String → W → ℕ × W
  pub eval : (W → ℕ × W) → Call W ℕ

abbrev pub activity_key : String
activity_key = "nscale:activity"

abbrev pub lock_key : String → String
lock_key key = append "nscale:lock:" key

pub record RedisActivityStore (W : Type 0) : Type 0 where
  pub client : RedisKeys W
  pub instance_id : String
  pub now : W → ℕ

module _ {W : Type 0} (s : RedisActivityStore W) where
  unfoldable pub record_activity : JobId → Exec W (Unit {0})
  record_activity job w = wrap store (s.client.zadd activity_key (s.now w) job) w

  -- `now - idle_threshold`
  unfoldable pub cutoff : ℕ → W → Cutoff
  cutoff idle_threshold w =
      if leb idle_threshold (s.now w)
      then at (s.now w - idle_threshold)
      else before_epoch (idle_threshold - s.now w)

  unfoldable pub get_idle_jobs : ℕ → Exec W (List JobId)
  unfolding cutoff
  get_idle_jobs idle_threshold w =
      wrap store (s.client.zrangebyscore activity_key (cutoff idle_threshold w)) w

  pub has_activity : JobId → Exec W Bool
  has_activity job = do score ← wrap store (s.client.zscore activity_key job); pure (is_some score)

  unfoldable pub try_acquire_lock : String → ℕ → Exec W Bool
  try_acquire_lock key ttl = do
    result ← wrap store (s.client.set_nx_px (lock_key key) s.instance_id ttl)
    pure (is_some result)

  -- The Lua script: compare and delete.
  pub release_script : String → W → ℕ × W
  release_script lock w = elim (s.client.get lock w) [
    | none ↦ (0, w)
    | some owner ↦ if owner == s.instance_id then s.client.del lock w else (0, w)
  ]

  pub release_lock : String → Exec W (Unit {0})
  unfolding release_script
  release_lock key = do _ ← wrap store (s.client.eval (release_script (lock_key key))); pure tt

  pub remove_activity : JobId → Exec W (Unit {0})
  remove_activity job = do _ ← wrap store (s.client.zrem activity_key job); pure tt

  -- The store as its callers see it.
  abbrev pub service : ActivityStore W
  service = record {
    record_activity = record_activity;
    get_idle_jobs = get_idle_jobs;
    has_activity = has_activity;
    try_acquire_lock = try_acquire_lock;
    release_lock = release_lock;
    remove_activity = remove_activity;
  }
