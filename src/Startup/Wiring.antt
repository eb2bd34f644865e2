-- ===== src/Startup/Wiring.antt =====
-- src/main.rs: the parts of the program and what each is given. The clients, the pools of connections
-- and the listeners are not part of the program; `Parts` is what main makes of them.
use nomad_scale_to_zero.Prelude.{ℕ, ◌/◌, String, Bool, Option, none, some, List, [], ◌∷◌}
use nomad_scale_to_zero.Prelude.Json.{Value}
use nomad_scale_to_zero.Core.Job.{JobId, Endpoint}
use nomad_scale_to_zero.Core.Effect.{Exec}
use nomad_scale_to_zero.Core.Config.{
  Config, TraefikConfig, ScalingConfig, idle_timeout, scale_down_interval,
}
use nomad_scale_to_zero.Core.Traits.{Orchestrator, ActivityStore, MissingJobTracker}
use nomad_scale_to_zero.Core.Services.{JobRegistry, Coordinator, InFlight, TrafficProbe}
use nomad_scale_to_zero.Nomad.Models.{JobSubmitResponse, JobStopResponse}
use nomad_scale_to_zero.Nomad.Events.{EventStreamConfig}
use nomad_scale_to_zero.Proxy.Forward.{Guard}
use nomad_scale_to_zero.Proxy.Handler.{Request, Forwarded, AppState}
use nomad_scale_to_zero.Scaler.Controller.{ScaleDownController}
use nomad_scale_to_zero.Scaler.EventProcessor.{EventProcessor}
use nomad_scale_to_zero.Admin.{AdminState}

-- The coordinator and the other parts, each made once and shared by all that use it, the operations of
-- the clients, and the runtime's: `spawn`, the clock and the cancellation token.
pub record Parts (W : Type 0) : Type 0 where
  pub activity_store : ActivityStore W
  pub registry : JobRegistry W
  pub missing_job_tracker : MissingJobTracker W
  pub orchestrator : Orchestrator W
  pub parse_job : String → Option String → Exec W Value
  pub submit_job : Value → Exec W JobSubmitResponse
  pub stop_and_purge_job : JobId → Exec W JobStopResponse
  pub coordinator : Coordinator W
  pub in_flight : InFlight W
  pub traffic_probe : TraefikConfig → TrafficProbe W
  pub forward_request : Endpoint → Request → W → Forwarded × W
  pub forward_websocket_upgrade : Endpoint → Request → W → (Forwarded × Guard) × W
  pub sleep : ℕ → W → W
  pub start_heartbeat : JobId → ℕ → Option ℕ → W → ℕ × W
  pub cancel_heartbeat : ℕ → W → W
  pub spawn : (W → W) → W → W
  pub now : W → ℕ
  pub is_cancelled : W → Bool

-- A third of the idle timeout, in whole milliseconds.
unfoldable pub heartbeat_interval : ScalingConfig → ℕ
heartbeat_interval scaling = idle_timeout scaling / 3

module _ {W : Type 0} (config : Config) (parts : Parts W) where
  unfoldable pub app_state : AppState W
  unfolding heartbeat_interval
  app_state = record {
    coordinator = parts.coordinator;
    registry = parts.registry;
    forward_request = parts.forward_request;
    forward_websocket_upgrade = parts.forward_websocket_upgrade;
    sleep = parts.sleep;
    in_flight = parts.in_flight;
    activity_store = parts.activity_store;
    missing_job_tracker = parts.missing_job_tracker;
    heartbeat_interval = heartbeat_interval config.scaling;
    start_heartbeat = parts.start_heartbeat;
    cancel_heartbeat = parts.cancel_heartbeat;
    now = parts.now;
    auto_deregister_enabled = config.scaling.auto_deregister.enabled;
    auto_deregister_threshold = config.scaling.auto_deregister.not_found_threshold;
  }

  -- `config.traefik.as_ref().map(…)`
  abbrev pub probe : Option (TrafficProbe W)
  probe = elim config.traefik [ none ↦ none | some traefik ↦ some (parts.traffic_probe traefik) ]

  unfoldable pub scaler : ScaleDownController W
  scaler = record {
    orchestrator = parts.orchestrator;
    store = parts.activity_store;
    registry = parts.registry;
    coordinator = parts.coordinator;
    traffic_probe = probe;
    in_flight = parts.in_flight;
    missing_job_tracker = parts.missing_job_tracker;
    idle_threshold = idle_timeout config.scaling;
    interval = scale_down_interval config.scaling;
    auto_deregister_enabled = config.scaling.auto_deregister.enabled;
    auto_deregister_threshold = config.scaling.auto_deregister.not_found_threshold;
    is_cancelled = parts.is_cancelled;
    spawn = parts.spawn;
    now = parts.now;
  }

  pub event_stream : EventStreamConfig
  event_stream = record {
    nomad_addr = config.nomad.addr;
    nomad_token = config.nomad.token;
    topics = "Allocation" ∷ [];
    initial_index = 0;
  }

  pub event_processor : EventProcessor W
  event_processor = record {
    coordinator = parts.coordinator;
    store = parts.activity_store;
    registry = parts.registry;
  }

  pub admin_state : AdminState W
  admin_state = record {
    parse_job = parts.parse_job;
    submit_job = parts.submit_job;
    stop_and_purge_job = parts.stop_and_purge_job;
    coordinator = parts.coordinator;
    registry = parts.registry;
    activity_store = parts.activity_store;
    missing_job_tracker = parts.missing_job_tracker;
    in_flight = parts.in_flight;
    file_provider_service = config.routing.file_provider_service;
  }

-- The routes of the admin API, and its liveness check.
pub data AdminHandler : Type 0 where
  healthz readyz admin_submit_job admin_purge_job admin_register admin_sync : AdminHandler

pub data RouteMethod : Type 0 where
  get post delete : RouteMethod

pub record Route : Type 0 where
  pub path : String
  pub method : RouteMethod
  pub handler : AdminHandler

abbrev route : String → RouteMethod → AdminHandler → Route
route path method handler = record { path = path; method = method; handler = handler }

pub admin_routes : List Route
admin_routes =
    route "/healthz" get healthz
    ∷ route "/readyz" get readyz
    ∷ route "/admin/jobs" post admin_submit_job
    ∷ route "/admin/jobs/{job_id}" delete admin_purge_job
    ∷ route "/admin/registry" post admin_register
    ∷ route "/admin/registry/sync" post admin_sync
    ∷ []
