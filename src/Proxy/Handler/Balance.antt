-- ===== src/Proxy/Handler/Balance.antt =====
-- handler.rs: how often a request is sent to a backend, and what becomes of its in-flight guard.
use nomad_scale_to_zero.Prelude.{
  ℕ, suc, ◌+◌, ◌≤◌, ◌≡◌, refl, String, Bool, true, false, Option, none, some, arith, unwrap_or,
  Option-cases, ◌∙◌, ◌⊎◌, inl, inr,
}
use nomad_scale_to_zero.Core.Job.{JobId, Endpoint, JobRegistration}
use nomad_scale_to_zero.Core.Error.{job_not_found, Result, ok, err}
use nomad_scale_to_zero.Proxy.Forward.{Guard, tunnelled, dropped, is_websocket_upgrade, first_label}
use nomad_scale_to_zero.Proxy.Heartbeat.{heartbeat_deadline}
use nomad_scale_to_zero.Proxy.Handler.Sends.{Accounts, Within, missing-Within, replay-Within}
use nomad_scale_to_zero.Proxy.Handler.{
  Request, Response, Forwarded, relayed, failed, AppState, replayable_method, build_retry_request,
  clear_missing_job_counter, handle_missing_job, attempted, answer_of, upgraded, relay, routed,
  woken, found, hosted, proxy_handler,
}

module _ {W : Type 0} (c : AppState W) (laws : Accounts c) where
  open laws use {sends, guards}

  -- How often a request may be sent again.
  abbrev pub resends : Request → ℕ
  resends req = elim (replayable_method req.method) [ none ↦ 0 | some _ ↦ 3 ]

  attempted-Within :
      (t : ℕ) (req : Request) (reg : JobRegistration) (ep : Endpoint) (f : Forwarded) (w : W)
      → Within c laws (resends req) w (attempted c t req reg ep f w).1
  unfolding attempted
  attempted-Within t req reg ep (relayed resp) w = (ground arith, refl)
  attempted-Within t req reg ep (failed e) w = elim (Option-cases (replayable_method req.method)) [
    | inl n ↦ (ground arith, ground arith)
    | inr (m, k) ↦ (
      ground (arith, (replay-Within c laws t reg ep (build_retry_request m req.uri) e w).0),
      ground (arith, (replay-Within c laws t reg ep (build_retry_request m req.uri) e w).1),
    )
  ]

  -- What a whole call may send, and whether its guard is dropped: that of a WebSocket lives on in a
  -- tunnel, which is opened with the status 101.
  abbrev pub Account : Request → W → Response × W → Type 0
  Account req w (resp, w') =
      (sends w' ≤ sends w + suc (resends req))
      × (((is_websocket_upgrade req.headers ≡ true) × (resp.status ≡ 101)) ⊎ (guards w' ≡ guards w))

  upgraded-Account :
      (req : Request) (job : JobId) (t : ℕ) (w v : W) (answer : Forwarded) (g : Guard)
      → is_websocket_upgrade req.headers ≡ true
      → sends v ≤ sends w + 1
      → guards v ≡ suc (guards w)
      → ((a : Forwarded)
          → ◌≡◌ {A = Forwarded × Guard} (answer, g) (a, tunnelled)
          → (answer_of c a).status ≡ 101)
      → Account req w (upgraded c job t (answer, g) v)
  unfolding upgraded
  upgraded-Account req job t w v answer tunnelled ws s h opened =
      (omega (arith, s), inl (ws, opened answer refl))
  upgraded-Account req job t w v answer dropped ws s h opened =
      let u : W = c.in_flight.release job v in
      (
        omega (arith, s, laws.release_sends job v, laws.cancel_sends t u),
        inr (laws.cancel_guards t u ∙ laws.release_guards job v (guards w) h),
      )

  relay-Account :
      (b : Bool) (req : Request) (reg : JobRegistration) (ep : Endpoint) (t : ℕ) (w u : W)
      → is_websocket_upgrade req.headers ≡ b
      → sends u ≡ sends w
      → guards u ≡ suc (guards w)
      → Account req w (relay c b req reg ep t u)
  unfolding relay
  relay-Account true req reg ep t w u ws quiet held =
      let sent = c.forward_websocket_upgrade ep req u in
      upgraded-Account req reg.job_id t w sent.1 sent.0.0 sent.0.1 ws
        (omega (arith, laws.upgrade_sends ep req u, quiet)) (laws.upgrade_guards ep req u ∙ held)
        (λ a e. laws.upgrade_tunnelled ep req u a e)
  relay-Account false req reg ep t w u plain quiet held =
      let sent = c.forward_request ep req u in
      let done = attempted c t req reg ep sent.0 sent.1 in
      let (s, g) = attempted-Within t req reg ep sent.0 sent.1 in
      let x : W = c.cancel_heartbeat t done.1 in
      let still : guards x ≡ suc (guards w) =
        laws.cancel_guards t done.1 ∙ g ∙ laws.forward_guards ep req u ∙ held in
      (
        omega (
          arith,
          s,
          laws.forward_sends ep req u,
          quiet,
          laws.cancel_sends t done.1,
          laws.release_sends reg.job_id x,
        ),
        inr (laws.release_guards reg.job_id x (guards w) still),
      )

  routed-Account :
      (req : Request) (reg : JobRegistration) (ep : Endpoint) (w : W)
      → Account req w (routed c req reg ep w)
  unfolding routed
  routed-Account req reg ep w =
      let is_ws : Bool = is_websocket_upgrade req.headers in
      let v : W = c.in_flight.track reg.job_id w in
      let deadline : Option ℕ = heartbeat_deadline is_ws c.heartbeat_interval (c.now v) in
      let started = c.start_heartbeat reg.job_id c.heartbeat_interval deadline v in
      relay-Account is_ws req reg ep started.0 w started.1 refl
        (laws.start_sends reg.job_id c.heartbeat_interval deadline v
          ∙ laws.track_sends reg.job_id w)
        (laws.start_guards reg.job_id c.heartbeat_interval deadline v
          ∙ laws.track_guards reg.job_id w)

  -- An account of a call is kept by what goes before it and keeps the sends and the guards.
  after :
      (req : Request) (w v : W) (x : Response × W)
      → sends v ≡ sends w
      → guards v ≡ guards w
      → Account req v x
      → Account req w x
  after req w v x s g (a, inl ws) = (omega (arith, a, s), inl ws)
  after req w v x s g (a, inr b) = (omega (arith, a, s), inr (b ∙ g))

  silent : (req : Request) (w : W) (x : Response × W) → Within c laws 0 w x.1 → Account req w x
  silent req w x (s, g) = (omega (arith, s), inr g)

  woken-Account :
      (req : Request) (reg : JobRegistration) (a : Result Endpoint) (w : W)
      → Account req w (woken c req reg a w)
  unfolding woken clear_missing_job_counter
  woken-Account req reg (ok ep) w =
      let v : W = clear_missing_job_counter c reg.job_id w in
      let same : sends v ≡ sends w = ground (arith, laws.clear_sends reg.job_id w) in
      let held : guards v ≡ guards w = ground (arith, laws.clear_guards reg.job_id w) in
      after req w v (routed c req reg ep v) same held (routed-Account req reg ep v)
  woken-Account req reg (err (job_not_found m)) w =
      silent req w (handle_missing_job c reg.job_id "wake" w)
        (missing-Within c laws reg.job_id "wake" w)
  woken-Account req reg (err e) w = (ground arith, inr (ground arith))

  found-Account :
      (req : Request) (a : Result (Option JobRegistration)) (w : W)
      → Account req w (found c req a w)
  unfolding found
  found-Account req (ok (some reg)) w =
      let woke = c.coordinator.ensure_running reg w in
      after req w woke.1 (woken c req reg woke.0 woke.1) (laws.running_sends reg w)
        (laws.running_guards reg w) (woken-Account req reg woke.0 woke.1)
  found-Account req (ok none) w = (omega arith, inr refl)
  found-Account req (err e) w = (omega arith, inr refl)

  hosted-Account :
      (req : Request) (h : Option (Option String)) (w : W) → Account req w (hosted c req h w)
  unfolding hosted
  hosted-Account req none w = (omega arith, inr refl)
  hosted-Account req (some v) w =
      let host : String = first_label (unwrap_or v "") in
      let known = c.registry.get host w in
      after req w known.1 (found c req known.0 known.1) (laws.get_sends host w)
        (laws.get_guards host w) (found-Account req known.0 known.1)

  -- A request other than a GET or a HEAD is sent to a backend at most once, and those at most four
  -- times, whatever the registry, the coordinator and the backends answer, where those services send
  -- nothing to a backend themselves.
  pub sends_bounded :
      (req : Request) (w : W)
      → sends (proxy_handler c req w).1
        ≤ sends w + elim (replayable_method req.method) [ none ↦ 1 | some _ ↦ 4 ]
  unfolding proxy_handler
  sends_bounded req w = ground (arith, (hosted-Account req req.host w).0)

  -- On every path of the handler that ends, errors and early returns included, a request leaves no
  -- in-flight guard behind, unless it is a WebSocket upgrade that is answered with 101, whose guard lives
  -- on in the tunnel.
  pub guards_released :
      (req : Request) (w : W)
      → ((is_websocket_upgrade req.headers ≡ true) × ((proxy_handler c req w).0.status ≡ 101))
        ⊎ (guards (proxy_handler c req w).1 ≡ guards w)
  unfolding proxy_handler
  guards_released req w = (hosted-Account req req.host w).1
