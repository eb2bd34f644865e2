-- ===== src/Startup/Tests.antt =====
-- src/main.rs: the start on example values.
use nomad_scale_to_zero.Prelude.{
  true, ℕ, String, ◌+◌, some, List, [], ◌∷◌, ◌≡◌, refl, ltb, if◌then◌else◌, none, any, ◌==◌, false,
  arith,
}
use nomad_scale_to_zero.Core.Effect.{Call, done, refused}
use nomad_scale_to_zero.Startup.{going, exited, connect_redis, etcd_endpoints}
use nomad_scale_to_zero.Core.Error.{ok, http, err}
use nomad_scale_to_zero.Core.Config.{default_config, idle_timeout}
use nomad_scale_to_zero.Core.Samples.{
  sample_orchestrator, sample_activity, sample_tracker, sample_registry, sample_coordinator,
  sample_in_flight,
}
use nomad_scale_to_zero.Proxy.Forward.{dropped, upgrade_request}
use nomad_scale_to_zero.Proxy.Handler.{failed}
use nomad_scale_to_zero.Proxy.Heartbeat.{heartbeat, ticked}
use nomad_scale_to_zero.Store.Activity.{service, record_activity, get_idle_jobs, cutoff}
use nomad_scale_to_zero.Store.Activity.Tests.{Memory, start, keys_set, replica}
use nomad_scale_to_zero.Startup.Wiring.{Parts, app_state, scaler, heartbeat_interval}
use nomad_scale_to_zero.Scaler.Controller.{State}
use nomad_scale_to_zero.Startup.Shutdown.{
  proxy_ended, admin_ended, interrupted, ticks, scaler_awaited, scaler_awaited-interrupted,
}
use nomad_scale_to_zero.Startup.Heartbeats.{heartbeat-keeps_active}
use nomad_scale_to_zero.Startup.Attempts.{Ends, connects_or_exits}

-- Redis that listens from a second on; the state is the clock.
abbrev connect_from : ℕ → Call ℕ String
connect_from start now =
    (if ltb now start then refused "connection refused" else done "client", now)

abbrev second_later : ℕ → ℕ
second_later now = now + 1

connects_third : connect_redis (connect_from 2) second_later 30 0 0 ≡ (some (going "client"), 2)
unfolding connect_redis
connects_third = refl

never_connects : connect_redis (connect_from 100) second_later 30 0 0 ≡ (some exited, 29)
unfolding connect_redis
never_connects = refl

abbrev both_endpoints : List String
both_endpoints = "http://a:2379" ∷ "http://b:2379" ∷ []

two_endpoints : etcd_endpoints " http://a:2379, ,http://b:2379" ≡ both_endpoints
unfolding etcd_endpoints
two_endpoints = refl

connects_or_exits_example :
    Ends (connect_from 2) second_later 29 0 (connect_redis (connect_from 2) second_later 30 0 0)
connects_or_exits_example = connects_or_exits (connect_from 2) second_later 0

abbrev parts : Parts Memory
parts = record {
  activity_store = sample_activity;
  registry = sample_registry;
  missing_job_tracker = sample_tracker;
  orchestrator = sample_orchestrator;
  parse_job = λ hcl variables w. (err (http "down"), w);
  submit_job = λ job w. (err (http "down"), w);
  stop_and_purge_job = λ job w. (err (http "down"), w);
  coordinator = sample_coordinator;
  in_flight = sample_in_flight;
  traffic_probe = λ traefik. record {
    has_active_traffic = λ job w. (ok false, w);
    clear_baseline = λ job w. w;
  };
  forward_request = λ ep r w. (failed upgrade_request, w);
  forward_websocket_upgrade = λ ep r w. ((failed upgrade_request, dropped), w);
  sleep = λ n w. w;
  start_heartbeat = λ job n d w. (0, w);
  cancel_heartbeat = λ t w. w;
  spawn = λ task w. task w;
  now = λ w. w.clock;
  is_cancelled = λ w. false;
}

abbrev controller_start : State Memory
controller_start = record { world = start; deferred_jobs = λ job. none }

scaler_awaited-interrupted_example :
    let c = scaler default_config parts in
    (scaler_awaited c proxy_ended 3 controller_start ≡ (false, ticks c 3 controller_start))
    × (scaler_awaited c admin_ended 3 controller_start ≡ (false, ticks c 3 controller_start))
    × (scaler_awaited c interrupted 3 controller_start ≡ (true, ticks c 3 controller_start))
scaler_awaited-interrupted_example =
    scaler_awaited-interrupted (scaler default_config parts) 3 controller_start

-- Almost two intervals after a beat.
abbrev between : Memory
between = record (heartbeat (service (replica "a")) "web" (ticked ∷ []) start) { clock = 200_000 }

heartbeat-keeps_active_example : any (λ e. e == "web") [] ≡ false
unfolding heartbeat record_activity get_idle_jobs cutoff keys_set app_state scaler
    heartbeat_interval idle_timeout
heartbeat-keeps_active_example =
    heartbeat-keeps_active default_config parts (replica "a") keys_set "web" start between []
      (omega arith) refl refl (omega arith) refl
