-- ===== src/Proxy/Forwarding/Service.antt =====
-- proxy.rs: the forwarding of a WebSocket upgrade as the handler sees it.
use nomad_scale_to_zero.Prelude.{◌≡◌, arith}
use nomad_scale_to_zero.Core.Job.{Endpoint}
use nomad_scale_to_zero.Proxy.Forward.{Guard, tunnelled, dropped}
use nomad_scale_to_zero.Proxy.Handler.{Request, Response, AppState, answer_of}
use nomad_scale_to_zero.Proxy.Handler
use nomad_scale_to_zero.Proxy.Forwarding.{
  Forwarded, relayed, failed, Client, forward_request, forward_websocket_upgrade,
}
use nomad_scale_to_zero.Proxy.Forwarding.Tunnel.{Guarded, forward_websocket_upgrade-Guarded}

-- The handler reads no header of a response.
abbrev pub seen : Forwarded → Handler.Forwarded
seen (relayed response) =
    Handler.relayed (record { status = response.status; body = response.body })
seen (failed e) = Handler.failed e

module _ {W : Type 0} (client : Client W) where
  abbrev pub forward : Endpoint → Request → W → Handler.Forwarded × W
  forward ep req w = let sent = forward_request client ep req w in (seen sent.0, sent.1)

  abbrev pub upgrade : Endpoint → Request → W → (Handler.Forwarded × Guard) × W
  upgrade ep req w =
      let sent = forward_websocket_upgrade client ep req w in ((seen sent.0.0, sent.0.1), sent.1)

  seen-Guarded :
      (state : AppState W) (ep : Endpoint) (req : Request) (f : Forwarded) (g : Guard)
      → Guarded client ep req (f, g)
      → (answer : Handler.Forwarded)
      → ◌≡◌ {A = Handler.Forwarded × Guard} (seen f, g) (answer, tunnelled)
      → (answer_of state answer).status ≡ 101
  seen-Guarded state ep req (relayed response) tunnelled h answer e = ground (arith, h)
  seen-Guarded state ep req (relayed response) dropped h answer e = absurd (ground arith)
  seen-Guarded state ep req (failed x) tunnelled h answer e = absurd (ground (arith, h))
  seen-Guarded state ep req (failed x) dropped h answer e = absurd (ground arith)

  -- A tunnel is opened only with a response whose status is 101, as the handler's account has it.
  pub upgrade-tunnelled :
      (state : AppState W) (ep : Endpoint) (req : Request) (w : W) (answer : Handler.Forwarded)
      → (upgrade ep req w).0 ≡ (answer, tunnelled)
      → (answer_of state answer).status ≡ 101
  upgrade-tunnelled state ep req w answer e =
      let sent = forward_websocket_upgrade client ep req w in
      seen-Guarded state ep req sent.0.0 sent.0.1
        (forward_websocket_upgrade-Guarded client ep req w) answer e
