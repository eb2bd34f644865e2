-- ===== src/Store/Activity/Idle.antt =====
-- activity.rs: which jobs are idle.
use nomad_scale_to_zero.Prelude.{
  ℕ, ◌+◌, String, ◌≡◌, refl, Bool, false, Option, none, some, List, any, leb, ◌==◌, arith,
}
use nomad_scale_to_zero.Core.Job.{JobId}
use nomad_scale_to_zero.Core.Error.{ok}
use nomad_scale_to_zero.Core.Effect.{Reply, done, refused}
use nomad_scale_to_zero.Store.Activity.{
  Cutoff, at, before_epoch, RedisKeys, RedisActivityStore, activity_key, record_activity, cutoff,
  get_idle_jobs,
}

-- The score is at most the cutoff.
abbrev pub up_to : ℕ → Cutoff → Bool
up_to t (at c) = leb t c
up_to t (before_epoch c) = false

abbrev pub in_range : Option ℕ → Cutoff → Bool
in_range none c = false
in_range (some t) c = up_to t c

-- What Redis documents of `ZADD` and `ZRANGEBYSCORE`, when they succeed.
pub record SetLaws {W : Type 0} (c : RedisKeys W) : Type 0 where
  pub score : String → String → W → Option ℕ
  pub zadd_score :
      (k m : String) (t : ℕ) (w : W)
      → (c.zadd k t m w).0 ≡ done tt
      → score k m (c.zadd k t m w).1 ≡ some t
  pub range_members :
      (k m : String) (b : Cutoff) (w : W) (es : List String)
      → (c.zrangebyscore k b w).0 ≡ done es
      → any (λ e. e == m) es ≡ in_range (score k m w) b

module _ {W : Type 0} (s : RedisActivityStore W) (laws : SetLaws s.client) (job : JobId) where
  idle_reply :
      (threshold : ℕ) (w : W) (jobs : List JobId) (x : Reply (List String))
      → (s.client.zrangebyscore activity_key (cutoff s threshold w) w).0 ≡ x
      → (get_idle_jobs s threshold w).0 ≡ ok jobs
      → x ≡ done jobs
  unfolding get_idle_jobs
  idle_reply threshold w jobs (done es) e h = ground arith
  idle_reply threshold w jobs (refused m) e h = absurd (ground arith)

  recorded_reply :
      (w : W) (x : Reply (Unit {0}))
      → (s.client.zadd activity_key (s.now w) job w).0 ≡ x
      → (record_activity s job w).0 ≡ ok tt
      → x ≡ done tt
  unfolding record_activity
  recorded_reply w (done tt) e h = refl
  recorded_reply w (refused m) e h = absurd (ground arith)

  recorded :
      (w : W)
      → (record_activity s job w).0 ≡ ok tt
      → laws.score activity_key job (record_activity s job w).1 ≡ some (s.now w)
  unfolding record_activity
  recorded w h = laws.zadd_score activity_key job (s.now w) w (recorded_reply w _ refl h)

  cutoff_reached :
      (t threshold : ℕ) (w : W)
      → in_range (some t) (cutoff s threshold w) ≡ leb (t + threshold) (s.now w)
  unfolding cutoff
  cutoff_reached t threshold w = ground arith

  pub idle_exactly :
      (threshold : ℕ) (w w' : W) (jobs : List JobId)
      → (record_activity s job w).0 ≡ ok tt
      → laws.score activity_key job w' ≡ laws.score activity_key job (record_activity s job w).1
      → (get_idle_jobs s threshold w').0 ≡ ok jobs
      → any (λ e. e == job) jobs ≡ leb (s.now w + threshold) (s.now w')
  idle_exactly threshold w w' jobs h same g =
      let members =
        laws.range_members activity_key job (cutoff s threshold w') w' jobs
          (idle_reply threshold w' jobs _ refl g) in
      rw (members, same, recorded w h) (cutoff_reached (s.now w) threshold w')
