-- ===== src/Proxy/Forwarding.antt =====
-- crates/nscale-proxy/src/proxy.rs: the forwarding of a request, and of a WebSocket handshake with the
-- tunnel that follows it. The HTTP clients and the parser of URIs are not part of the program. The
-- streams of bodies and tunnels are not followed: a body is its text.
pub mod Tunnel
pub mod Service
pub mod Tests
use nomad_scale_to_zero.Prelude.{
  ℕ, String, Bool, true, false, Option, none, some, List, [], ◌∷◌, ◌++◌, ◌==◌, ◌&&◌, leb, nat_eq,
  unwrap_or, if◌then◌else◌,
}
use nomad_scale_to_zero.Prelude.Text.{append}
use nomad_scale_to_zero.Core.Job.{Endpoint, address, base_url}
use nomad_scale_to_zero.Core.Effect.{Act}
use nomad_scale_to_zero.Proxy.Forward.{
  ForwardRequestError, transport, upgrade_connect, upgrade_handshake, upgrade_request, Guard,
  tunnelled, dropped, response_build, Headers, relayed_headers,
}
use nomad_scale_to_zero.Proxy.Handler.{Method, Request}

-- What is sent to the backend.
pub record Outbound : Type 0 where
  pub method : Method
  pub url : String
  pub headers : Headers
  pub body : String

pub record BackendResponse : Type 0 where
  pub status : ℕ
  pub headers : Headers
  pub body : String

-- The answer to a request, or the error with what is asked of it.
pub data Sent : Type 0 where
  answered : BackendResponse → Sent
  refused : Bool → Bool → Option ℕ → Sent

pub data Forwarded : Type 0 where
  relayed : BackendResponse → Forwarded
  failed : ForwardRequestError → Forwarded

-- `builds` says whether a response can be built of a status and headers. `connect` answers with an
-- error as its being a timeout; `handshake` and `send_request` are those of the connection.
pub record Client (W : Type 0) : Type 0 where
  pub path_and_query : String → Option String
  pub request : Outbound → Act W Sent
  pub builds : ℕ → Headers → Bool
  pub connect : String → Act W (Option Bool)
  pub handshake : Act W Bool
  pub send_request : Request → Act W (Option BackendResponse)

abbrev pub path_or_root : Option String → String
path_or_root uri = unwrap_or uri "/"

-- `StatusCode::from_u16(…).unwrap_or(StatusCode::BAD_GATEWAY)`
pub status_or_bad_gateway : ℕ → ℕ
status_or_bad_gateway n = if leb 100 n && leb n 999 then n else 502

-- `HeaderMap::insert`: the first value is replaced and the others go, or the header is added.
abbrev pub without : String → Headers → Headers
without name [] = []
without name (h ∷ hs) = let rest = without name hs in if h.0 == name then rest else h ∷ rest

pub insert_header : String → String → Headers → Headers
insert_header name value [] = (name, some value) ∷ []
insert_header name value (h ∷ hs) =
    let rest = insert_header name value hs in
    if h.0 == name then (name, some value) ∷ without name hs else h ∷ rest

module _ {W : Type 0} (client : Client W) (backend : Endpoint) where
  pub outbound : Request → Outbound
  outbound req = record {
    method = req.method;
    url = append (base_url "http" backend) (path_or_root (client.path_and_query req.uri));
    headers = relayed_headers req.headers;
    body = req.body;
  }

  pub convert_response : Sent → Forwarded
  unfolding status_or_bad_gateway
  convert_response (refused connect timeout status) = failed (transport connect timeout status)
  convert_response (answered response) =
      let status = status_or_bad_gateway response.status in
      if client.builds status response.headers
      then relayed (record response { status = status })
      else failed response_build

  pub forward_request : Request → W → Forwarded × W
  unfolding outbound convert_response
  forward_request req w =
      let sent = client.request (outbound req) w in (convert_response sent.0, sent.1)

  -- The handshake's request: a relative URI, and the backend as the host.
  pub upgrade_outbound : Request → Request
  unfolding insert_header
  upgrade_outbound req = record req {
    uri = path_or_root (client.path_and_query req.uri);
    host = some (some (address backend));
    headers = insert_header "host" (address backend) req.headers;
  }

  abbrev pub Upgraded : Type 0
  Upgraded = Forwarded × Guard

  pub upgrade_answered : Option BackendResponse → Upgraded
  upgrade_answered none = (failed upgrade_request, dropped)
  upgrade_answered (some response) =
      (relayed response, if nat_eq response.status 101 then tunnelled else dropped)

  pub handshaken : Request → Bool → W → Upgraded × W
  unfolding upgrade_answered upgrade_outbound
  handshaken req false w = ((failed upgrade_handshake, dropped), w)
  handshaken req true w =
      let sent = client.send_request (upgrade_outbound req) w in (upgrade_answered sent.0, sent.1)

  pub connected : Request → Option Bool → W → Upgraded × W
  unfolding handshaken
  connected req (some timed_out) w = ((failed (upgrade_connect timed_out), dropped), w)
  connected req none w = let shaken = client.handshake w in handshaken req shaken.0 shaken.1

  pub forward_websocket_upgrade : Request → W → Upgraded × W
  unfolding connected
  forward_websocket_upgrade req w =
      let reached = client.connect (address backend) w in connected req reached.0 reached.1
