-- ===== src/Core/Samples.antt =====
-- Concrete data, and services that always succeed and change nothing, for the tests.
use nomad_scale_to_zero.Prelude.{true, some, [], ◌∷◌}
use nomad_scale_to_zero.Core.Job.{Endpoint, JobRegistration}
use nomad_scale_to_zero.Core.Error.{ok}
use nomad_scale_to_zero.Core.Traits.{Orchestrator, ActivityStore, MissingJobTracker}
use nomad_scale_to_zero.Core.Services.{JobRegistry, Coordinator, InFlight}
use nomad_scale_to_zero.Waker.Coordinator.{confirmed}

abbrev pub web : JobRegistration
web = record { job_id = "web"; service_name = "web-svc"; nomad_group = "main" }

abbrev pub backend : Endpoint
backend = record { host = "10.0.0.1"; port = 8080 }

module _ {W : Type 0} where
  abbrev pub sample_orchestrator : Orchestrator W
  sample_orchestrator = record {
    scale_up = λ job group n w. (ok tt, w);
    scale_down = λ job group w. (ok tt, w);
    get_job_count = λ job group w. (ok 1, w);
    get_healthy_endpoint = λ job w. (ok (some backend), w);
  }

  abbrev pub sample_activity : ActivityStore W
  sample_activity = record {
    record_activity = λ job w. (ok tt, w);
    get_idle_jobs = λ n w. (ok ("web" ∷ []), w);
    has_activity = λ job w. (ok true, w);
    try_acquire_lock = λ key ttl w. (ok true, w);
    release_lock = λ key w. (ok tt, w);
    remove_activity = λ job w. (ok tt, w);
  }

  abbrev pub sample_tracker : MissingJobTracker W
  sample_tracker = record {
    increment_not_found = λ job w. (ok 1, w);
    clear_not_found = λ job w. (ok tt, w);
  }

  abbrev pub sample_registry : JobRegistry W
  sample_registry = record {
    register = λ r w. (ok tt, w);
    deregister = λ job w. (ok tt, w);
    get = λ job w. (ok (some web), w);
    list_all = λ w. (ok [], w);
  }

  abbrev pub sample_coordinator : Coordinator W
  sample_coordinator = record {
    ensure_running = λ r w. (ok backend, w);
    refresh_endpoint = λ r ep w. (ok (confirmed backend), w);
    mark_dormant = λ job w. w;
  }

  abbrev pub sample_in_flight : InFlight W
  sample_in_flight = record { count = λ job w. 0; track = λ job w. w; release = λ job w. w }
