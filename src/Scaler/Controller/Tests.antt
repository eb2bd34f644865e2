-- ===== src/Scaler/Controller/Tests.antt =====
-- controller.rs on a concrete controller; the state is the clock.
use nomad_scale_to_zero.Prelude.{ℕ, ◌≡◌, refl, inl, inr, true, false, none, some, arith}
use nomad_scale_to_zero.Core.Error.{store, job_not_found, deployment_in_progress, ok, err}
use nomad_scale_to_zero.Core.Traits.{Orchestrator}
use nomad_scale_to_zero.Core.Services.{JobRegistry}
use nomad_scale_to_zero.Scaler.Controller.Missing.{reconnected, missing_job-kept}
use nomad_scale_to_zero.Core.Samples.{
  web, sample_orchestrator, sample_activity, sample_tracker, sample_registry, sample_coordinator,
  sample_in_flight,
}
use nomad_scale_to_zero.Store.Activity.{lock_key, try_acquire_lock}
use nomad_scale_to_zero.Store.Activity.Tests.{Memory, own, start, keys_locks, replica}
use nomad_scale_to_zero.Store.AutoDeregister.Tests.{counter, counter_laws}
use nomad_scale_to_zero.Scaler.Controller.Threshold.{counting, misses, misses-kept}
use nomad_scale_to_zero.Scaler.Controller.Lock.{on_redis, tick-locked_out}
use nomad_scale_to_zero.Scaler.Controller.{
  scale_down_lock_key, tick, ScaleDownController, State, settle, scale_down_job,
  clear_missing_job_counter,
}
use nomad_scale_to_zero.Scaler.Controller.Guards.{
  rewired, scale_down_job-Protected, scale_down_job_idle, deployment_defers,
}

abbrev controller_at : {W : Type 0} → (W → ℕ) → ScaleDownController W
controller_at clock = record {
  orchestrator = sample_orchestrator;
  store = sample_activity;
  registry = sample_registry;
  coordinator = sample_coordinator;
  traffic_probe = none;
  in_flight = sample_in_flight;
  missing_job_tracker = sample_tracker;
  idle_threshold = 60_000;
  interval = 10_000;
  auto_deregister_enabled = true;
  auto_deregister_threshold = 3;
  is_cancelled = λ w. false;
  spawn = λ task w. task w;
  now = clock;
}

abbrev controller : ScaleDownController ℕ
controller = controller_at (λ w. w)

abbrev deferred_state : State ℕ
deferred_state = record { world = 10; deferred_jobs = λ job. some 50 }

abbrev free_state : State ℕ
free_state = record { world = 10; deferred_jobs = λ job. none }

abbrev broken_orchestrator : Orchestrator ℕ
broken_orchestrator = record sample_orchestrator {
  scale_down = λ job group w. (err (store "down"), w);
}

scale_down_job-Protected_example :
    scale_down_job (rewired controller broken_orchestrator sample_coordinator) "web" deferred_state
    ≡ scale_down_job controller "web" deferred_state
scale_down_job-Protected_example =
    scale_down_job-Protected controller "web" deferred_state (inl (50, refl, omega arith))
      broken_orchestrator sample_coordinator

web_scaled_down :
    scale_down_job controller "web" free_state ≡ settle controller "web" (ok tt) free_state
web_scaled_down = scale_down_job_idle controller "web" free_state web refl refl refl refl

deployment_defers_example :
    let t = settle controller "web" (err (deployment_in_progress "web" "scale down")) free_state in
    scale_down_job controller "web" (record t { world = 20 }) ≡ record t { world = 20 }
unfolding clear_missing_job_counter
deployment_defers_example =
    deployment_defers controller "web" free_state "web" "scale down" 20 (omega arith)

abbrev broken_registry : JobRegistry ℕ
broken_registry = record sample_registry { deregister = λ job w. (err (store "down"), w) }

missing_job_stays :
    settle
      (reconnected controller "web" broken_registry sample_coordinator)
      "web"
      (err (job_not_found "web"))
      free_state
    ≡ settle controller "web" (err (job_not_found "web")) free_state
missing_job_stays =
    missing_job-kept controller "web" free_state "web" broken_registry sample_coordinator
      (inr (λ n h. ground arith))

-- Replica `a` holds the lock in a Redis in memory; replica `b` ticks.
abbrev other_holds : State Memory
other_holds = record {
  world = own (lock_key scale_down_lock_key) (some "a") start;
  deferred_jobs = λ job. none;
}

tick-locked_out_example :
    (tick (on_redis (controller_at (λ w. w.clock)) (replica "b")) other_holds).1 ≡ other_holds
unfolding try_acquire_lock
tick-locked_out_example =
    tick-locked_out (controller_at (λ w. w.clock)) (replica "b") keys_locks other_holds "a" refl

-- The counter is at 0.
abbrev fresh_state : State ℕ
fresh_state = record { world = 0; deferred_jobs = λ job. none }

misses-kept_example :
    misses "web" "web"
      (reconnected (counting controller counter) "web" broken_registry sample_coordinator)
      2
      fresh_state
    ≡ misses "web" "web" (counting controller counter) 2 fresh_state
unfolding counter_laws
misses-kept_example =
    misses-kept controller counter counter_laws "web" "web" 2 fresh_state broken_registry
      sample_coordinator (omega arith)
