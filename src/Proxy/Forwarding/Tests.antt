-- ===== src/Proxy/Forwarding/Tests.antt =====
-- proxy.rs on concrete backends; the state is not used.
use nomad_scale_to_zero.Prelude.{ℕ, Bool, true, Option, none, some, [], ◌∷◌, ◌≡◌, refl}
use nomad_scale_to_zero.Core.Samples.{backend}
use nomad_scale_to_zero.Proxy.Forward.{upgrade_connect, relayed_headers, skipped}
use nomad_scale_to_zero.Proxy.Forward.{tunnelled, dropped}
use nomad_scale_to_zero.Proxy.Handler.{Request, get}
use nomad_scale_to_zero.Proxy.Forwarding.{
  BackendResponse, answered, relayed, failed, Client, insert_header, outbound,
  forward_websocket_upgrade, connected, handshaken, upgrade_answered,
}
use nomad_scale_to_zero.Proxy.Forwarding.Tunnel.{Guarded, forward_websocket_upgrade-Guarded}

abbrev response : ℕ → BackendResponse
response status = record { status = status; headers = []; body = "" }

-- A backend that answers every request with a status, once it is reached.
abbrev client : Option Bool → ℕ → Client ℕ
client reached status = record {
  path_and_query = λ uri. some uri;
  request = λ out w. (answered (response status), w);
  builds = λ n headers. true;
  connect = λ at w. (reached, w);
  handshake = λ w. (true, w);
  send_request = λ req w. (some (response status), w);
}

abbrev request : Request
request = record {
  method = get;
  uri = "/chat?room=1";
  host = some (some "web.example.com");
  headers =
      ("host", some "web.example.com") ∷ ("connection", some "upgrade") ∷ ("x-id", some "7") ∷ [];
  body = "";
}

forward_websocket_upgrade-Guarded_example :
    Guarded
      (client none 101)
      backend
      request
      (forward_websocket_upgrade (client none 101) backend request 7).0
forward_websocket_upgrade-Guarded_example =
    forward_websocket_upgrade-Guarded (client none 101) backend request 7

tunnel :
    (forward_websocket_upgrade (client none 101) backend request 7).0
    ≡ (relayed (response 101), tunnelled)
unfolding forward_websocket_upgrade connected handshaken upgrade_answered
tunnel = refl

unreached :
    (forward_websocket_upgrade (client (some true) 101) backend request 7).0
    ≡ (failed (upgrade_connect true), dropped)
unfolding forward_websocket_upgrade connected
unreached = refl

headers_lem : (outbound (client none 200) backend request).headers ≡ ("x-id", some "7") ∷ []
unfolding outbound relayed_headers skipped
headers_lem = refl

inserted :
    insert_header "host" "10.0.0.1:8080" request.headers
    ≡ ("host", some "10.0.0.1:8080") ∷ ("connection", some "upgrade") ∷ ("x-id", some "7") ∷ []
unfolding insert_header
inserted = refl
