-- ===== src/Startup/Shutdown.antt =====
-- src/main.rs: how the program ends. Main waits for a server to end or for an interrupt, and then for
-- the scale-down controller and the event processor.
use nomad_scale_to_zero.Prelude.{ℕ, zero, suc, Bool, true, false, List, [], ◌∷◌, ◌≡◌, refl}
use nomad_scale_to_zero.Core.Effect.{ignore}
use nomad_scale_to_zero.Scaler.Controller.{ScaleDownController, State, tick}
use nomad_scale_to_zero.Scaler.Controller.Run.{Wakeup, ticked, cancelled, run}

-- What the `select!` of main meets first.
pub data Ending : Type 0 where
  proxy_ended admin_ended interrupted : Ending

-- Only the arm of the interrupt cancels the token.
pub cancels : Ending → Bool
cancels proxy_ended = false
cancels admin_ended = false
cancels interrupted = true

-- What the controller's loop meets from then on: any number of ticks, and the cancellation where there
-- is one.
pub wakeups : Bool → ℕ → List Wakeup
wakeups false zero = []
wakeups true zero = cancelled ∷ []
wakeups c (suc n) = ticked ∷ wakeups c n

module _ {W : Type 0} (c : ScaleDownController W) where
  -- `scaler_handle.await`, by the time of `n` more ticks: whether it has returned, and the controller.
  pub scaler_awaited : Ending → ℕ → State W → Bool × State W
  unfolding cancels wakeups
  scaler_awaited ending n s = run c (wakeups (cancels ending) n) s

  abbrev pub ticks : ℕ → State W → State W
  ticks zero s = s
  ticks (suc n) s = ticks n (ignore (tick c) s)

  run-wakeups : (b : Bool) (n : ℕ) (s : State W) → run c (wakeups b n) s ≡ (b, ticks n s)
  unfolding run wakeups
  run-wakeups false zero s = refl
  run-wakeups true zero s = refl
  run-wakeups false (suc n) s = run-wakeups false n (ignore (tick c) s)
  run-wakeups true (suc n) s = run-wakeups true n (ignore (tick c) s)

  -- When the proxy's or the admin API's server ends by itself, main waits for a controller that goes on
  -- to tick: however many ticks pass, the wait does not return. After an interrupt it returns, after
  -- however many ticks the cancellation is seen, and the controller has done these ticks and no more.
  pub scaler_awaited-interrupted :
      (n : ℕ) (s : State W)
      → (scaler_awaited proxy_ended n s ≡ (false, ticks n s))
        × (scaler_awaited admin_ended n s ≡ (false, ticks n s))
        × (scaler_awaited interrupted n s ≡ (true, ticks n s))
  unfolding scaler_awaited
  scaler_awaited-interrupted n s =
      (run-wakeups false n s, run-wakeups false n s, run-wakeups true n s)
