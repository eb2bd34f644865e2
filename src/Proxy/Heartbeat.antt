-- ===== src/Proxy/Heartbeat.antt =====
-- crates/nscale-proxy/src/handler.rs: the heartbeat, a task that records the activity of a job while a
-- request is in flight. Instants and durations are in milliseconds.
use nomad_scale_to_zero.Prelude.{
  ℕ, ◌+◌, ◌*◌, Bool, Option, none, some, List, [], ◌∷◌, if◌then◌else◌,
}
use nomad_scale_to_zero.Core.Job.{JobId}
use nomad_scale_to_zero.Core.Effect.{ignore}
use nomad_scale_to_zero.Core.Traits.{ActivityStore}

-- What the `select!` takes next: the cancellation, the deadline, or the next tick of the interval.
pub data Beat : Type 0 where
  cancelled expired ticked : Beat

-- A WebSocket's heartbeat has no deadline.
pub heartbeat_deadline : Bool → ℕ → ℕ → Option ℕ
heartbeat_deadline is_websocket heartbeat_interval now =
    if is_websocket then none else some (now + heartbeat_interval * 6 + 60_000)

-- The loop of the task, until it ends.
unfoldable pub heartbeat : {W : Type 0} → ActivityStore W → JobId → List Beat → W → W
heartbeat store job [] w = w
heartbeat store job (cancelled ∷ beats) w = w
heartbeat store job (expired ∷ beats) w = w
heartbeat store job (ticked ∷ beats) w =
    heartbeat store job beats (ignore (store.record_activity job) w)
