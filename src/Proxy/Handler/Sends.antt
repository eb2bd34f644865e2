-- ===== src/Proxy/Handler/Sends.antt =====
-- handler.rs: what each part of a request's handling sends.
use nomad_scale_to_zero.Prelude.{
  ℕ, suc, ◌+◌, ◌≤◌, ◌≡◌, refl, String, Option, List, [], ◌∷◌, length, arith, ◌∙◌,
}
use nomad_scale_to_zero.Core.Job.{JobId, Endpoint, JobRegistration}
use nomad_scale_to_zero.Core.Error.{job_not_found, Result, ok, err}
use nomad_scale_to_zero.Waker.Coordinator.{EndpointRefresh, confirmed, updated, missing}
use nomad_scale_to_zero.Proxy.Forward.{ForwardRequestError, tunnelled}
use nomad_scale_to_zero.Proxy.Handler.{
  Request, Forwarded, relayed, failed, answer_of, AppState, transient_retry_backoff_ms,
  clear_missing_job_counter, cleanup_missing_job_state, cleaned, counted, handle_missing_job,
  Retried, answered, exhausted, retried, retry_loop, forward_last, rewoken, refreshed,
  after_retries, replay,
}

-- What a request's handling has sent, and the guards that it holds: each send counts once, a guard
-- is taken and dropped where the tracker says, and nothing else touches either.
pub record Accounts {W : Type 0} (c : AppState W) : Type 0 where
  pub sends : W → ℕ
  pub guards : W → ℕ
  pub forward_sends :
      (ep : Endpoint) (r : Request) (w : W) → sends (c.forward_request ep r w).1 ≡ suc (sends w)
  pub forward_guards :
      (ep : Endpoint) (r : Request) (w : W) → guards (c.forward_request ep r w).1 ≡ guards w
  pub upgrade_sends :
      (ep : Endpoint) (r : Request) (w : W)
      → sends (c.forward_websocket_upgrade ep r w).1 ≡ suc (sends w)
  pub upgrade_guards :
      (ep : Endpoint) (r : Request) (w : W)
      → guards (c.forward_websocket_upgrade ep r w).1 ≡ guards w
  -- a tunnel is opened only with a response whose status is 101 (Proxy/Forwarding)
  pub upgrade_tunnelled :
      (ep : Endpoint) (r : Request) (w : W) (answer : Forwarded)
      → (c.forward_websocket_upgrade ep r w).0 ≡ (answer, tunnelled)
      → (answer_of c answer).status ≡ 101
  pub start_sends :
      (job : JobId) (n : ℕ) (d : Option ℕ) (w : W) → sends (c.start_heartbeat job n d w).1 ≡ sends w
  pub start_guards :
      (job : JobId) (n : ℕ) (d : Option ℕ) (w : W)
      → guards (c.start_heartbeat job n d w).1 ≡ guards w
  pub cancel_sends : (t : ℕ) (w : W) → sends (c.cancel_heartbeat t w) ≡ sends w
  pub cancel_guards : (t : ℕ) (w : W) → guards (c.cancel_heartbeat t w) ≡ guards w
  pub track_sends : (job : JobId) (w : W) → sends (c.in_flight.track job w) ≡ sends w
  pub track_guards : (job : JobId) (w : W) → guards (c.in_flight.track job w) ≡ suc (guards w)
  pub release_sends : (job : JobId) (w : W) → sends (c.in_flight.release job w) ≡ sends w
  pub release_guards :
      (job : JobId) (w : W) (n : ℕ) → guards w ≡ suc n → guards (c.in_flight.release job w) ≡ n
  pub sleep_sends : (n : ℕ) (w : W) → sends (c.sleep n w) ≡ sends w
  pub sleep_guards : (n : ℕ) (w : W) → guards (c.sleep n w) ≡ guards w
  pub get_sends : (job : JobId) (w : W) → sends (c.registry.get job w).1 ≡ sends w
  pub get_guards : (job : JobId) (w : W) → guards (c.registry.get job w).1 ≡ guards w
  pub deregister_sends : (job : JobId) (w : W) → sends (c.registry.deregister job w).1 ≡ sends w
  pub deregister_guards : (job : JobId) (w : W) → guards (c.registry.deregister job w).1 ≡ guards w
  pub running_sends :
      (r : JobRegistration) (w : W) → sends (c.coordinator.ensure_running r w).1 ≡ sends w
  pub running_guards :
      (r : JobRegistration) (w : W) → guards (c.coordinator.ensure_running r w).1 ≡ guards w
  pub refresh_sends :
      (r : JobRegistration) (ep : Endpoint) (w : W)
      → sends (c.coordinator.refresh_endpoint r ep w).1 ≡ sends w
  pub refresh_guards :
      (r : JobRegistration) (ep : Endpoint) (w : W)
      → guards (c.coordinator.refresh_endpoint r ep w).1 ≡ guards w
  pub dormant_sends : (job : JobId) (w : W) → sends (c.coordinator.mark_dormant job w) ≡ sends w
  pub dormant_guards : (job : JobId) (w : W) → guards (c.coordinator.mark_dormant job w) ≡ guards w
  pub activity_sends :
      (job : JobId) (w : W) → sends (c.activity_store.remove_activity job w).1 ≡ sends w
  pub activity_guards :
      (job : JobId) (w : W) → guards (c.activity_store.remove_activity job w).1 ≡ guards w
  pub clear_sends :
      (job : JobId) (w : W) → sends (c.missing_job_tracker.clear_not_found job w).1 ≡ sends w
  pub clear_guards :
      (job : JobId) (w : W) → guards (c.missing_job_tracker.clear_not_found job w).1 ≡ guards w
  pub increment_sends :
      (job : JobId) (w : W) → sends (c.missing_job_tracker.increment_not_found job w).1 ≡ sends w
  pub increment_guards :
      (job : JobId) (w : W) → guards (c.missing_job_tracker.increment_not_found job w).1 ≡ guards w

module _ {W : Type 0} (c : AppState W) (laws : Accounts c) where
  open laws use {sends, guards}

  -- At most `n` sends lie between two states, and the guards held are the same.
  abbrev pub Within : ℕ → W → W → Type 0
  Within n w w' = (sends w' ≤ sends w + n) × (guards w' ≡ guards w)

  pub clear_missing-Within : (job : JobId) (w : W) → Within 0 w (clear_missing_job_counter c job w)
  unfolding clear_missing_job_counter
  clear_missing-Within job w =
      (ground (arith, laws.clear_sends job w), ground (arith, laws.clear_guards job w))

  cleanup-Within :
      (job : JobId) (r : Result (Unit {0})) (w : W)
      → let w₁ = (c.activity_store.remove_activity job (c.coordinator.mark_dormant job w)).1 in
        (c.registry.deregister job w₁).0 ≡ r → Within 0 w (cleanup_missing_job_state c job w).1
  unfolding cleanup_missing_job_state
  cleanup-Within job r w e =
      let w₀ : W = c.coordinator.mark_dormant job w in
      let w₁ : W = (c.activity_store.remove_activity job w₀).1 in
      let w₂ : W = (c.registry.deregister job w₁).1 in
      (
        ground (
          arith,
          laws.dormant_sends job w,
          laws.activity_sends job w₀,
          laws.deregister_sends job w₁,
          laws.clear_sends job w₂,
        ),
        ground (
          arith,
          laws.dormant_guards job w,
          laws.activity_guards job w₀,
          laws.deregister_guards job w₁,
          laws.clear_guards job w₂,
        ),
      )

  cleaned-world : (job : JobId) (r : Result (Unit {0})) (w : W) → (cleaned c job r w).1 ≡ w
  unfolding cleaned
  cleaned-world job (ok _) w = refl
  cleaned-world job (err e) w = refl

  counted-Within : (job : JobId) (r : Result ℕ) (w : W) → Within 0 w (counted c job r w).1
  unfolding counted
  counted-Within job (err e) w = (ground arith, refl)
  counted-Within job (ok n) w =
      let done = cleanup_missing_job_state c job w in
      let (s, g) = cleanup-Within job _ w refl in
      (
        ground (arith, s, cleaned-world job done.0 done.1),
        ground (arith, g, cleaned-world job done.0 done.1),
      )

  pub missing-Within :
      (job : JobId) (source : String) (w : W) → Within 0 w (handle_missing_job c job source w).1
  unfolding handle_missing_job
  missing-Within job source w =
      let counter = c.missing_job_tracker.increment_not_found job w in
      let (s, g) = counted-Within job counter.0 counter.1 in
      (
        ground (arith, laws.increment_sends job w, s),
        ground (arith, laws.increment_guards job w, g),
      )

  retried-Within :
      (more : ForwardRequestError → W → Retried × W) (n : ℕ)
      → ((e : ForwardRequestError) (w : W) → Within n w (more e w).1)
      → (f : Forwarded) (w : W) → Within n w (retried c more f w).1
  unfolding retried
  retried-Within more n h (relayed resp) w = (ground arith, refl)
  retried-Within more n h (failed e) w =
      let (s, g) = h e w in (ground (arith, s), ground (arith, g))

  retry_loop-Within :
      (ep : Endpoint) (r : Request) (e : ForwardRequestError) (ds : List ℕ) (w : W)
      → Within (length ds) w (retry_loop c ep r e ds w).1
  unfolding retry_loop
  retry_loop-Within ep r e [] w = (ground arith, refl)
  retry_loop-Within ep r e (d ∷ ds) w =
      let w₀ : W = c.sleep d w in
      let w₁ : W = (c.forward_request ep r w₀).1 in
      let (s, g) =
        retried-Within (λ x. retry_loop c ep r x ds) (length ds)
          (λ x v. retry_loop-Within ep r x ds v) (c.forward_request ep r w₀).0 w₁ in
      (
        ground (arith, s, laws.forward_sends ep r w₀, laws.sleep_sends d w),
        ground (arith, g, laws.forward_guards ep r w₀, laws.sleep_guards d w),
      )

  last-Within :
      (ep : Endpoint) (job : JobId) (r : Request) (w : W)
      → Within 1 w (forward_last c ep r (clear_missing_job_counter c job w)).1
  unfolding forward_last
  last-Within ep job r w =
      let v : W = clear_missing_job_counter c job w in
      let (s, g) = clear_missing-Within job w in
      (ground (arith, s, laws.forward_sends ep r v), ground (arith, g, laws.forward_guards ep r v))

  pub weaken : (m n : ℕ) (w w' : W) → m ≤ n → Within m w w' → Within n w w'
  weaken m n w w' h (s, g) = (omega (arith, s, h), g)

  cancelled-Within :
      (t : ℕ) (job : JobId) (source : String) (w : W)
      → Within 0 w (handle_missing_job c job source (c.cancel_heartbeat t w)).1
  cancelled-Within t job source w =
      let (s, g) = missing-Within job source (c.cancel_heartbeat t w) in
      (omega (arith, s, laws.cancel_sends t w), g ∙ laws.cancel_guards t w)

  rewoken-Within :
      (t : ℕ) (reg : JobRegistration) (r : Request) (a : Result Endpoint) (w : W)
      → Within 1 w (rewoken c t reg r a w).1
  unfolding rewoken
  rewoken-Within t reg r (ok ep) w = last-Within ep reg.job_id r w
  rewoken-Within t reg r (err (job_not_found m)) w =
      weaken 0 1 w _ (omega arith) (cancelled-Within t reg.job_id "rewake" w)
  rewoken-Within t reg r (err e) w = (ground arith, ground arith)

  refreshed-Within :
      (t : ℕ) (reg : JobRegistration) (r : Request) (e : ForwardRequestError)
      (a : Result EndpointRefresh) (w : W)
      → Within 1 w (refreshed c t reg r e a w).1
  unfolding refreshed
  refreshed-Within t reg r e (ok (confirmed ep)) w =
      weaken 0 1 w _ (omega arith) (clear_missing-Within reg.job_id w)
  refreshed-Within t reg r e (ok (updated ep)) w = last-Within ep reg.job_id r w
  refreshed-Within t reg r e (ok missing) w =
      let woke = c.coordinator.ensure_running reg w in
      let (s, g) = rewoken-Within t reg r woke.0 woke.1 in
      (ground (arith, s, laws.running_sends reg w), ground (arith, g, laws.running_guards reg w))
  refreshed-Within t reg r e (err (job_not_found m)) w =
      weaken 0 1 w _ (omega arith) (cancelled-Within t reg.job_id "refresh" w)
  refreshed-Within t reg r e (err x) w = (ground arith, ground arith)

  after_retries-Within :
      (t : ℕ) (reg : JobRegistration) (ep : Endpoint) (r : Request) (a : Retried) (w : W)
      → Within 1 w (after_retries c t reg ep r a w).1
  unfolding after_retries
  after_retries-Within t reg ep r (answered resp) w = (ground arith, refl)
  after_retries-Within t reg ep r (exhausted e) w =
      let fresh = c.coordinator.refresh_endpoint reg ep w in
      let (s, g) = refreshed-Within t reg r e fresh.0 fresh.1 in
      (
        ground (arith, s, laws.refresh_sends reg ep w),
        ground (arith, g, laws.refresh_guards reg ep w),
      )

  pub replay-Within :
      (t : ℕ) (reg : JobRegistration) (ep : Endpoint) (r : Request) (e : ForwardRequestError)
      (w : W)
      → Within 3 w (replay c t reg ep r e w).1
  unfolding replay
  replay-Within t reg ep r e w =
      let looped = retry_loop c ep r e transient_retry_backoff_ms w in
      let (s, g) = retry_loop-Within ep r e transient_retry_backoff_ms w in
      let (t, h) = after_retries-Within t reg ep r looped.0 looped.1 in (omega (arith, s, t), h ∙ g)
