-- ===== src/Scaler/Controller/Run.antt =====
-- controller.rs: the loop that ticks until it is cancelled.
use nomad_scale_to_zero.Prelude.{Bool, true, false, List, [], ◌∷◌}
use nomad_scale_to_zero.Core.Effect.{ignore}
use nomad_scale_to_zero.Scaler.Controller.{ScaleDownController, State, tick}

-- What the `select!` meets: the next tick of the interval, or the cancellation.
pub data Wakeup : Type 0 where
  ticked cancelled : Wakeup

module _ {W : Type 0} (c : ScaleDownController W) where
  -- Whether the loop has returned, and the state; it still waits where the list ends. The tick's error
  -- is logged only.
  unfoldable pub run : List Wakeup → State W → Bool × State W
  unfolding tick
  run [] s = (false, s)
  run (cancelled ∷ rest) s = (true, s)
  run (ticked ∷ rest) s = run rest (ignore (tick c) s)
