-- ===== src/Proxy/Handler/Tests.antt =====
-- handler.rs on concrete services; the state counts the sends and the guards that are held.
use nomad_scale_to_zero.Prelude.{
  ℕ, suc, ◌-◌, ◌≤◌, ◌≡◌, ◌⊎◌, refl, true, false, none, some, [], arith,
}
use nomad_scale_to_zero.Core.Samples.{
  sample_activity, sample_tracker, sample_registry, sample_coordinator,
}
use nomad_scale_to_zero.Proxy.Forward.{Guard, tunnelled, dropped, transport, is_websocket_upgrade}
use nomad_scale_to_zero.Proxy.Handler.{
  Method, get, other, Request, Forwarded, failed, answer_of, AppState, replayable_method,
  proxy_handler,
}
use nomad_scale_to_zero.Proxy.Handler.Sends.{Accounts}
use nomad_scale_to_zero.Proxy.Handler.Balance.{sends_bounded, guards_released}

record Ledger : Type 0 where
  sent : ℕ
  held : ℕ

-- Every send fails with a timeout.
abbrev state : AppState Ledger
state = record {
  coordinator = sample_coordinator;
  registry = sample_registry;
  forward_request = λ ep r w. (failed (transport false true none), record w { sent = suc w.sent });
  forward_websocket_upgrade =
      λ ep r w. ((failed (transport false true none), dropped), record w { sent = suc w.sent });
  sleep = λ n w. w;
  in_flight = record {
    count = λ job w. w.held;
    track = λ job w. record w { held = suc w.held };
    release = λ job w. record w { held = w.held - 1 };
  };
  activity_store = sample_activity;
  missing_job_tracker = sample_tracker;
  heartbeat_interval = 100_000;
  start_heartbeat = λ job n d w. (0, w);
  cancel_heartbeat = λ t w. w;
  now = λ w. 0;
  auto_deregister_enabled = true;
  auto_deregister_threshold = 3;
}

never_tunnelled :
    (a : Forwarded)
    → ◌≡◌ {A = Forwarded × Guard} (failed (transport false true none), dropped) (a, tunnelled)
    → (answer_of state a).status ≡ 101
never_tunnelled a e = absurd (ground arith)

accounts : Accounts state
accounts = record {
  sends = λ w. w.sent;
  guards = λ w. w.held;
  forward_sends = λ ep r w. refl;
  forward_guards = λ ep r w. refl;
  upgrade_sends = λ ep r w. refl;
  upgrade_guards = λ ep r w. refl;
  upgrade_tunnelled = λ ep r w a e. never_tunnelled a e;
  start_sends = λ job n d w. refl;
  start_guards = λ job n d w. refl;
  cancel_sends = λ t w. refl;
  cancel_guards = λ t w. refl;
  track_sends = λ job w. refl;
  track_guards = λ job w. refl;
  release_sends = λ job w. refl;
  release_guards = λ job w n h. ground arith;
  sleep_sends = λ n w. refl;
  sleep_guards = λ n w. refl;
  get_sends = λ job w. refl;
  get_guards = λ job w. refl;
  deregister_sends = λ job w. refl;
  deregister_guards = λ job w. refl;
  running_sends = λ r w. refl;
  running_guards = λ r w. refl;
  refresh_sends = λ r ep w. refl;
  refresh_guards = λ r ep w. refl;
  dormant_sends = λ job w. refl;
  dormant_guards = λ job w. refl;
  activity_sends = λ job w. refl;
  activity_guards = λ job w. refl;
  clear_sends = λ job w. refl;
  clear_guards = λ job w. refl;
  increment_sends = λ job w. refl;
  increment_guards = λ job w. refl;
}

abbrev request : Method → Request
request m = record {
  method = m;
  uri = "/";
  host = some (some "web.example.org");
  headers = [];
  body = "";
}

abbrev start : Ledger
start = record { sent = 0; held = 0 }

sends_bounded_example : (proxy_handler state (request (other "POST")) start).1.sent ≤ 1
unfolding replayable_method accounts
sends_bounded_example = sends_bounded state accounts (request (other "POST")) start

guards_released_example :
    ((is_websocket_upgrade [] ≡ true) × ((proxy_handler state (request get) start).0.status ≡ 101))
    ⊎ ((proxy_handler state (request get) start).1.held ≡ 0)
unfolding is_websocket_upgrade accounts
guards_released_example = guards_released state accounts (request get) start
