-- ===== src/Proxy/Forwarding/Tunnel.antt =====
-- proxy.rs: how long the guard of a WebSocket tunnel lives.
use nomad_scale_to_zero.Prelude.{
  Bool, true, false, Option, none, some, ◌≡◌, ◌≢◌, refl, nat_eq, Bool-cases, inl, inr, arith,
}
use nomad_scale_to_zero.Core.Job.{Endpoint, address}
use nomad_scale_to_zero.Proxy.Forward.{Guard, tunnelled, dropped}
use nomad_scale_to_zero.Proxy.Handler.{Request}
use nomad_scale_to_zero.Proxy.Forwarding.{
  BackendResponse, Forwarded, relayed, failed, Client, upgrade_answered, upgrade_outbound,
  handshaken, connected, forward_websocket_upgrade,
}

module _ {W : Type 0} (client : Client W) (backend : Endpoint) (req : Request) where
  abbrev pub Guarded : Forwarded × Guard → Type 0
  Guarded (relayed response, tunnelled) = response.status ≡ 101
  Guarded (relayed response, dropped) = response.status ≢ 101
  Guarded (failed e, g) = g ≡ dropped

  answered-Guarded : (x : Option BackendResponse) → Guarded (upgrade_answered client backend x)
  unfolding upgrade_answered
  answered-Guarded none = refl
  answered-Guarded (some response) = elim (Bool-cases (nat_eq response.status 101)) [
    | inl e ↦ rw e (ground (arith, e))
    | inr e ↦ rw e (λ h. ground (arith, e))
  ]

  handshaken-Guarded : (b : Bool) (w : W) → Guarded (handshaken client backend req b w).0
  unfolding handshaken
  handshaken-Guarded false w = refl
  handshaken-Guarded true w =
      answered-Guarded (client.send_request (upgrade_outbound client backend req) w).0

  connected-Guarded : (x : Option Bool) (w : W) → Guarded (connected client backend req x w).0
  unfolding connected
  connected-Guarded (some timed_out) w = refl
  connected-Guarded none w = handshaken-Guarded (client.handshake w).0 (client.handshake w).1

  -- The guard of a WebSocket upgrade lives on in a tunnel exactly when a response is relayed whose
  -- status is 101; it is dropped with every other response, and where the connection, the handshake or
  -- the request fails.
  pub forward_websocket_upgrade-Guarded :
      (w : W) → Guarded (forward_websocket_upgrade client backend req w).0
  unfolding forward_websocket_upgrade
  forward_websocket_upgrade-Guarded w =
      connected-Guarded (client.connect (address backend) w).0
        (client.connect (address backend) w).1
