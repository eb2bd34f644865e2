-- ===== src/Proxy/Handler.antt =====
-- crates/nscale-proxy/src/handler.rs: the handler of proxied requests. The HTTP client, the WebSocket
-- tunnel and the sleep are operations of the state `W`. The heartbeat (Proxy/Heartbeat) runs
-- beside the handler, which spawns and cancels it. A cancellation directly before an answer has the
-- effect of the guard's own, which follows it.
pub mod Sends
pub mod Balance
pub mod Tests
use nomad_scale_to_zero.Prelude.{
  ◌+◌, ◌*◌, ℕ, String, Bool, true, false, Option, none, some, List, [], ◌∷◌, leb, not, unwrap_or,
  if◌then◌else◌,
}
use nomad_scale_to_zero.Prelude.Text.{append, show}
use nomad_scale_to_zero.Core.Job.{JobId, Endpoint, JobRegistration}
use nomad_scale_to_zero.Core.Error.{NscaleError, job_not_found, to_string, Result, ok, err}
use nomad_scale_to_zero.Core.Effect.{Exec, pure, ignore, also, on, ◌>>=◌, ◌>>◌}
use nomad_scale_to_zero.Core.Traits.{ActivityStore, MissingJobTracker}
use nomad_scale_to_zero.Core.Services.{JobRegistry, Coordinator, InFlight}
use nomad_scale_to_zero.Waker.Coordinator.{EndpointRefresh, confirmed, updated, missing}
use nomad_scale_to_zero.Proxy.Heartbeat.{heartbeat_deadline}
use nomad_scale_to_zero.Proxy.Forward.{
  ForwardRequestError, status_code, is_retryable_transport, Headers, is_websocket_upgrade,
  first_label, Guard, tunnelled, dropped,
}

pub data Method : Type 0 where
  get head : Method
  other : String → Method

-- `host` is the `Host` header, if there is one, as text, if it is.
pub record Request : Type 0 where
  pub method : Method
  pub uri : String
  pub host : Option (Option String)
  pub headers : Headers
  pub body : String

pub record Response : Type 0 where
  pub status : ℕ
  pub body : String

pub data Forwarded : Type 0 where
  relayed : Response → Forwarded
  failed : ForwardRequestError → Forwarded

pub record AppState (W : Type 0) : Type 0 where
  pub coordinator : Coordinator W
  pub registry : JobRegistry W
  pub forward_request : Endpoint → Request → W → Forwarded × W
  pub forward_websocket_upgrade : Endpoint → Request → W → (Forwarded × Guard) × W
  pub sleep : ℕ → W → W
  pub in_flight : InFlight W
  pub activity_store : ActivityStore W
  pub missing_job_tracker : MissingJobTracker W
  pub heartbeat_interval : ℕ
  -- `tokio::spawn` of a heartbeat, with the token that cancels it
  pub start_heartbeat : JobId → ℕ → Option ℕ → W → ℕ × W
  pub cancel_heartbeat : ℕ → W → W
  pub now : W → ℕ
  pub auto_deregister_enabled : Bool
  pub auto_deregister_threshold : ℕ

abbrev pub transient_retry_backoff_ms : List ℕ
transient_retry_backoff_ms = 100 ∷ 250 ∷ []

pub replayable_method : Method → Option Method
replayable_method get = some get
replayable_method head = some head
replayable_method (other _) = none

pub build_retry_request : Method → String → Request
build_retry_request method uri = record {
  method = method;
  uri = uri;
  host = none;
  headers = [];
  body = "";
}

abbrev pub respond : ℕ → String → Response
respond status body = record { status = status; body = body }

abbrev pub failure : ForwardRequestError → Response
unfolding status_code
failure e = respond (status_code e) ""

module _ {W : Type 0} (state : AppState W) (job : JobId) where
  unfoldable pub clear_missing_job_counter : W → W
  clear_missing_job_counter w =
      if state.auto_deregister_enabled
      then ignore (state.missing_job_tracker.clear_not_found job) w
      else w

  unfoldable pub cleanup_missing_job_state : Exec W (Unit {0})
  cleanup_missing_job_state = also (state.coordinator.mark_dormant job) (
      also (ignore (state.activity_store.remove_activity job)) do
        state.registry.deregister job
        also (ignore (state.missing_job_tracker.clear_not_found job)) (pure tt))

  pub cleaned : Result (Unit {0}) → W → Response × W
  cleaned (ok _) w = (respond 404 "service not registered", w)
  cleaned (err e) w =
      (respond 503 (append "service missing in Nomad and cleanup failed: " (to_string e)), w)

  pub counted : Result ℕ → W → Response × W
  unfolding cleanup_missing_job_state cleaned
  counted (err e) w = (respond 503 "service unavailable while tracking stale registration", w)
  counted (ok count) w =
      if leb state.auto_deregister_threshold count
      then on cleanup_missing_job_state cleaned w
      else (
        respond 503 (
            append "service missing in Nomad (" (
              append (show count)
                (append "/" (append (show state.auto_deregister_threshold) ")")))),
        w,
      )

  unfoldable pub handle_missing_job : String → W → Response × W
  unfolding counted
  handle_missing_job source w =
      if not state.auto_deregister_enabled
      then (respond 503 (append "service missing in Nomad during " source), w)
      else on (state.missing_job_tracker.increment_not_found job) counted w

-- How the loop of retries ends.
pub data Retried : Type 0 where
  answered : Response → Retried
  exhausted : ForwardRequestError → Retried

module _ {W : Type 0} (state : AppState W) where
  -- One retry's outcome; `more` is the rest of the loop.
  pub retried : (ForwardRequestError → W → Retried × W) → Forwarded → W → Retried × W
  unfolding is_retryable_transport
  retried more (relayed resp) w = (answered resp, w)
  retried more (failed e) w =
      if is_retryable_transport e then more e w else (answered (failure e), w)

  pub retry_loop : Endpoint → Request → ForwardRequestError → List ℕ → W → Retried × W
  unfolding retried
  retry_loop ep retry e [] w = (exhausted e, w)
  retry_loop ep retry e (delay ∷ rest) w =
      let sent = state.forward_request ep retry (state.sleep delay w) in
      retried (λ x. retry_loop ep retry x rest) sent.0 sent.1

  abbrev pub answer_of : Forwarded → Response
  answer_of (relayed resp) = resp
  answer_of (failed e) = failure e

  -- The last attempt, on another endpoint.
  pub forward_last : Endpoint → Request → W → Response × W
  forward_last ep retry w =
      let sent = state.forward_request ep retry w in (answer_of sent.0, sent.1)

  pub rewoken : ℕ → JobRegistration → Request → Result Endpoint → W → Response × W
  unfolding forward_last clear_missing_job_counter handle_missing_job
  rewoken t reg retry (ok ep) w =
      forward_last ep retry (clear_missing_job_counter state reg.job_id w)
  rewoken t reg retry (err (job_not_found _)) w =
      handle_missing_job state reg.job_id "rewake" (state.cancel_heartbeat t w)
  rewoken t reg retry (err e) w = (respond 503 (append "retry wake error: " (to_string e)), w)

  -- The match on the refresh, after the retries.
  pub refreshed :
      ℕ
      → JobRegistration
      → Request
      → ForwardRequestError
      → Result EndpointRefresh
      → W
      → Response × W
  unfolding forward_last clear_missing_job_counter handle_missing_job rewoken
  refreshed t reg retry e (ok (confirmed _)) w =
      (failure e, clear_missing_job_counter state reg.job_id w)
  refreshed t reg retry e (ok (updated ep)) w =
      forward_last ep retry (clear_missing_job_counter state reg.job_id w)
  refreshed t reg retry e (ok missing) w =
      on (state.coordinator.ensure_running reg) (rewoken t reg retry) w
  refreshed t reg retry e (err (job_not_found _)) w =
      handle_missing_job state reg.job_id "refresh" (state.cancel_heartbeat t w)
  refreshed t reg retry e (err _) w = (respond 502 "", w)

  pub after_retries : ℕ → JobRegistration → Endpoint → Request → Retried → W → Response × W
  unfolding refreshed
  after_retries t reg ep retry (answered resp) w = (resp, w)
  after_retries t reg ep retry (exhausted e) w =
      on (state.coordinator.refresh_endpoint reg ep) (refreshed t reg retry e) w

  pub replay : ℕ → JobRegistration → Endpoint → Request → ForwardRequestError → W → Response × W
  unfolding retry_loop after_retries
  replay t reg ep retry e w =
      let looped = retry_loop ep retry e transient_retry_backoff_ms w in
      after_retries t reg ep retry looped.0 looped.1

  -- The match on the first attempt.
  pub attempted : ℕ → Request → JobRegistration → Endpoint → Forwarded → W → Response × W
  unfolding replay replayable_method build_retry_request is_retryable_transport
  attempted t req reg ep (relayed resp) w = (resp, w)
  attempted t req reg ep (failed e) w =
      if not (is_retryable_transport e)
      then (failure e, w)
      else elim (replayable_method req.method) [
        | none ↦ (failure e, w)
        | some m ↦ replay t reg ep (build_retry_request m req.uri) e w
      ]

  -- A WebSocket's guards go to its tunnel, and are dropped where there is none.
  pub upgraded : JobId → ℕ → Forwarded × Guard → W → Response × W
  upgraded job t (answer, tunnelled) w = (answer_of answer, w)
  upgraded job t (answer, dropped) w =
      (answer_of answer, state.cancel_heartbeat t (state.in_flight.release job w))

  -- The rest, with the heartbeat's token, for a WebSocket upgrade and for any other request.
  pub relay : Bool → Request → JobRegistration → Endpoint → ℕ → W → Response × W
  unfolding attempted upgraded
  relay true req reg ep t w =
      let sent = state.forward_websocket_upgrade ep req w in upgraded reg.job_id t sent.0 sent.1
  relay false req reg ep t w =
      let sent = state.forward_request ep req w in
      let done = attempted t req reg ep sent.0 sent.1 in
      (done.0, state.in_flight.release reg.job_id (state.cancel_heartbeat t done.1))

  pub routed : Request → JobRegistration → Endpoint → W → Response × W
  unfolding relay is_websocket_upgrade
  routed req reg ep w =
      let is_websocket = is_websocket_upgrade req.headers in
      let tracked = state.in_flight.track reg.job_id w in
      let deadline = heartbeat_deadline is_websocket state.heartbeat_interval (state.now tracked) in
      let started = state.start_heartbeat reg.job_id state.heartbeat_interval deadline tracked in
      relay is_websocket req reg ep started.0 started.1

  pub woken : Request → JobRegistration → Result Endpoint → W → Response × W
  unfolding routed clear_missing_job_counter handle_missing_job
  woken req reg (ok ep) w = routed req reg ep (clear_missing_job_counter state reg.job_id w)
  woken req reg (err (job_not_found _)) w = handle_missing_job state reg.job_id "wake" w
  woken req reg (err e) w = (respond 503 (append "wake error: " (to_string e)), w)

  pub found : Request → Result (Option JobRegistration) → W → Response × W
  unfolding woken
  found req (ok (some reg)) w = on (state.coordinator.ensure_running reg) (woken req reg) w
  found req (ok none) w = (respond 404 "service not registered", w)
  found req (err e) w = (respond 500 "registry error", w)

  -- The match on the header.
  pub hosted : Request → Option (Option String) → W → Response × W
  unfolding found first_label
  hosted req none w = (respond 400 "missing Host header", w)
  hosted req (some v) w = on (state.registry.get (first_label (unwrap_or v ""))) (found req) w

  pub proxy_handler : Request → W → Response × W
  unfolding hosted
  proxy_handler req w = hosted req req.host w
