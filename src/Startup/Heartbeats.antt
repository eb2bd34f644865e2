-- ===== src/Startup/Heartbeats.antt =====
-- src/main.rs with handler.rs and activity.rs: why a job with a long request does not become idle.
use nomad_scale_to_zero.Prelude.{
  ◌+◌, ◌*◌, ◌≤◌, ◌<◌, ◌≡◌, ◌∙◌, false, List, [], ◌∷◌, any, ◌==◌, arith,
}
use nomad_scale_to_zero.Core.Job.{JobId}
use nomad_scale_to_zero.Core.Error.{ok}
use nomad_scale_to_zero.Core.Config.{Config, idle_timeout}
use nomad_scale_to_zero.Store.Activity.{
  RedisActivityStore, activity_key, record_activity, get_idle_jobs, service,
}
use nomad_scale_to_zero.Store.Activity.Idle.{SetLaws, idle_exactly}
use nomad_scale_to_zero.Proxy.Heartbeat.{heartbeat, ticked}
use nomad_scale_to_zero.Startup.Wiring.{Parts, heartbeat_interval, app_state, scaler}

module _ {W : Type 0} (config : Config) (parts : Parts W) where
  -- Two intervals of the heartbeat are less than the controller's threshold.
  two_beats :
      0 < config.scaling.idle_timeout_secs
      → 2 * (app_state config parts).heartbeat_interval < (scaler config parts).idle_threshold
  unfolding app_state scaler heartbeat_interval idle_timeout
  two_beats h = omega (arith, h)

  -- A job with a request in flight whose heartbeat ticks, with the intervals that main hands out, is not
  -- listed as idle: after a beat that was recorded, not for two more intervals, so that a beat may fail
  -- or be late, as long as no one else changes the record and the idle timeout is not zero.
  pub heartbeat-keeps_active :
      (s : RedisActivityStore W) (laws : SetLaws s.client) (job : JobId) (w w' : W)
      (jobs : List JobId)
      → 0 < config.scaling.idle_timeout_secs
      → (record_activity s job w).0 ≡ ok tt
      → laws.score activity_key job w'
        ≡ laws.score activity_key job (heartbeat (service s) job (ticked ∷ []) w)
      → s.now w' ≤ s.now w + 2 * (app_state config parts).heartbeat_interval
      → (get_idle_jobs s (scaler config parts).idle_threshold w').0 ≡ ok jobs
      → any (λ e. e == job) jobs ≡ false
  unfolding heartbeat
  heartbeat-keeps_active s laws job w w' jobs h recorded same soon g =
      idle_exactly s laws job (scaler config parts).idle_threshold w w' jobs recorded same g
      ∙ ground (arith, two_beats h)
