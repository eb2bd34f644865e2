-- ===== src/Waker/Tests.antt =====
-- coordinator.rs: runs of the coordinator on concrete inputs.
use nomad_scale_to_zero.Prelude.{
  ℕ, ◌≡◌, refl, Bool, none, some, [], ◌∷◌, ◌++◌, ◌-◌, ◌≤◌, arith, ne_of_false,
}
use nomad_scale_to_zero.Core.Job.{Endpoint, JobRegistration}
use nomad_scale_to_zero.Core.Error.{store, ok}
use nomad_scale_to_zero.Waker.State.{ready, state_dormant, state_ready}
use nomad_scale_to_zero.Waker.Coordinator.{WakeCoordinator, mark_dormant, is_ready, new}
use nomad_scale_to_zero.Waker.Tasks.{
  waiting, returned, woke, broken, ended, fallen, failure, acquiring, scaling, subscribing, fast,
  spawning,
}
use nomad_scale_to_zero.Waker.System.{
  System, Step, called, accessed, spawned, published, Calm, here, next, Reach, init, run_request,
  run_wake, edit, set_request, set_wake, set_permits, acquired,
}
use nomad_scale_to_zero.Waker.System
use nomad_scale_to_zero.Waker.Claims.{status}
use nomad_scale_to_zero.Waker.Coalescing.{one_wake_per_state, one_wake_per_job}
use nomad_scale_to_zero.Waker.Permits.{held_below, Conserved, permits-Conserved, scaling_bounded}
use nomad_scale_to_zero.Waker.Progress.{rests, accesses-rests}
use nomad_scale_to_zero.Waker.Completion.{wake_completes}
use nomad_scale_to_zero.Waker.Delivery.{pending, winner_hears}
use nomad_scale_to_zero.Waker.LateSubscriber.{Missed, late_subscriber}
use nomad_scale_to_zero.Waker.Rewake.{accesses, mark_dormant_rewakes}
use nomad_scale_to_zero.Waker.Operations.{
  mark_dormant_resets, Refreshed, refresh_endpoint_cases, wake_publishes, failed_wake_resets,
}

abbrev web : JobRegistration
web = record { job_id = "web"; service_name = "web-svc"; nomad_group = "main" }

abbrev backend : Endpoint
backend = record { host = "10.0.0.1"; port = 8080 }

-- One call has entered, won the wake, subscribed and spawned its task.
abbrev looked : System
looked = run_request 0 (run_request 0 (set_request 0 (fast web) (init 4 30)))

abbrev ready_to_spawn : System
ready_to_spawn = run_request 0 (run_request 0 (run_request 0 looked))

abbrev waking_system : System
waking_system = set_wake 0 (acquiring web 0) (set_request 0 (waiting web 0 []) ready_to_spawn)

looked_run : Calm (init 4 30) looked
unfolding init
looked_run = next (next (next here (called 0 web refl)) (accessed 0)) (accessed 0)

waking_run : Calm (init 4 30) waking_system
unfolding init run_request
waking_run =
    next (next (next (next looked_run (accessed 0)) (accessed 0)) (accessed 0))
      (spawned 0 web 0 [] refl refl)

waking-Reach : Reach (init 4 30) waking_system
unfolding init run_request
waking-Reach =
    System.next
      (System.next
        (System.next
          (System.next
            (System.next (System.next (System.next System.here (called 0 web refl)) (accessed 0))
              (accessed 0))
            (accessed 0))
          (accessed 0))
        (accessed 0))
      (spawned 0 web 0 [] refl refl)

waking-Run : System.Run (init 4 30) waking_system
unfolding init run_request
waking-Run =
    System.Run.next
      (System.Run.next
        (System.Run.next
          (System.Run.next
            (System.Run.next
              (System.Run.next (System.Run.next System.Run.here (called 0 web refl)) (accessed 0))
              (accessed 0))
            (accessed 0))
          (accessed 0))
        (accessed 0))
      (spawned 0 web 0 [] refl refl)

one_wake_per_state_example : ◌≡◌ {A = ℕ} 0 0
one_wake_per_state_example = one_wake_per_state 4 30 0 0 0 waking-Reach refl refl

one_wake_per_job_example : ◌≡◌ {A = ℕ} 0 0
one_wake_per_job_example = one_wake_per_job 4 30 0 0 web web waking_run refl refl refl

winner_hears_example : pending (waking_system.wake 0) ≡ some 0
unfolding init run_request
winner_hears_example = winner_hears 4 30 0 0 web waking-Run refl (ground arith)

-- The task has taken one of the four permits.
abbrev scaling_system : System
scaling_system = set_wake 0 (scaling web 0) (set_permits 3 waking_system)

permits-Conserved_example : Conserved 4 scaling_system
unfolding init run_request
permits-Conserved_example =
    permits-Conserved 4 30 (System.Run.next waking-Run (acquired 0 web 0 refl (omega arith)))

accesses-rests_example : rests ((accesses 5 1 waking_system).request 1) ≡ Bool.true
accesses-rests_example = accesses-rests 1 waking_system

wake_completes_example :
    (t : System) × Calm waking_system t
    × (t.coordinator.endpoints "web" ≡ some backend)
    × (status t 0 ≡ state_ready)
    × (t.wake 0 ≡ ended web 0)
    × ((j : ℕ) (x : JobRegistration)
        → waking_system.request j ≡ waiting x 0 []
        → Step t (set_request j (returned (ok backend)) t))
unfolding init run_request
wake_completes_example = wake_completes waking_system 0 0 web backend refl (omega arith)

few_scale :
    (held_below 9 scaling_system.wake ≤ 4)
    × (scaling_system.coordinator.permits ≤ 4 - held_below 9 scaling_system.wake)
unfolding init run_request
few_scale =
    scaling_bounded 4 30 9 (System.Run.next waking-Run (acquired 0 web 0 refl (omega arith)))

-- A call that has loaded WAKING, while the task has stored READY and broadcast meanwhile.
abbrev late : System
late = record {
  coordinator = record (new 4 30) { cells = λ _. record { status = state_ready }; next = 1 };
  request = λ _. subscribing web 0;
  wake = λ _. ended web 0;
}

late_subscriber_example :
    Missed web 0 30 ((run_request 0 late).request 0) × (status (run_request 0 late) 0 ≡ state_ready)
unfolding new
late_subscriber_example =
    late_subscriber {s = late} {t = run_request 0 late} 0 0 web refl refl (omega arith)
      (λ j h. ground arith) (λ j h. ground arith) (System.next System.here (accessed 0))

-- A coordinator with one job that is ready.
abbrev serving : WakeCoordinator
serving = record (new 4 30) {
  jobs = λ _. some 0;
  endpoints = λ _. some backend;
  cells = λ _. record { status = state_ready };
  next = 1;
}

mark_dormant_forgets :
    (is_ready "web" (mark_dormant "web" serving) ≡ Bool.false)
    × ((mark_dormant "web" serving).jobs "web" ≡ none)
    × (((mark_dormant "web" serving).cells 0).status ≡ state_dormant)
    × ((mark_dormant "web" serving).endpoints "api" ≡ serving.endpoints "api")
    × ((mark_dormant "web" serving).jobs "api" ≡ serving.jobs "api")
mark_dormant_forgets = mark_dormant_resets "web" "api" 0 serving refl (ne_of_false "api" "web" refl)

refresh_endpoint_missing : Refreshed web backend (ok none) serving
refresh_endpoint_missing = refresh_endpoint_cases web backend (ok none) serving

-- The task of `waking_system` once the job is healthy, and once it has failed.
abbrev healthy_system : System
healthy_system = set_wake 0 (woke web 0 backend) waking_system

abbrev broken_system : System
broken_system = set_wake 0 (broken web 0 (store "down")) waking_system

wake_publishes_ready :
    let t = run_wake 0 (run_wake 0 (run_wake 0 healthy_system)) in
    (t.coordinator.endpoints "web" ≡ some backend)
    × (status t 0 ≡ state_ready)
    × (t.request 0 ≡ waiting web 0 ([] ++ ready backend ∷ []))
    × (t.wake 0 ≡ ended web 0)
wake_publishes_ready = wake_publishes healthy_system 0 0 0 web web backend [] refl refl

failure_resets :
    let t = run_wake 0 (run_wake 0 (run_wake 0 broken_system)) in
    (t.coordinator.jobs "web" ≡ none)
    × (status t 0 ≡ state_dormant)
    × (t.request 0 ≡ waiting web 0 ([] ++ failure (store "down") ∷ []))
    × (t.wake 0 ≡ fallen web)
failure_resets = failed_wake_resets broken_system 0 0 0 web web (store "down") [] refl refl

-- The job of `waking_system` is marked dormant while its wake task runs.
mark_dormant_rewakes_example :
    let t = accesses 5 1 (set_request 1 (fast web) (edit (mark_dormant "web") waking_system)) in
    (t.request 1 ≡ spawning web waking_system.coordinator.next []) × (t.wake ≡ waking_system.wake)
mark_dormant_rewakes_example = mark_dormant_rewakes waking_system 1 web
