-- ===== src/Proxy/Forward.antt =====
-- crates/nscale-proxy/src/proxy.rs: the errors of forwarding, the recognition of WebSocket upgrades
-- and the headers that are relayed; middleware.rs: the job that a host names. An error of a
-- third-party crate stands for what is asked of it.
use nomad_scale_to_zero.Prelude.{
  ℕ, String, Bool, true, false, Option, none, some, List, [], ◌∷◌, any, ◌==◌, ◌&&◌, ◌||◌,
  if◌then◌else◌,
}
use nomad_scale_to_zero.Prelude.Text.{
  before, is_empty, split_from, trim_start, trim_right, eq_ignore_ascii_case,
}

-- `transport` carries `is_connect()`, `is_timeout()` and `status()` of its source, `upgrade_connect`
-- whether the kind of its source is `TimedOut`.
pub data ForwardRequestError : Type 0 where
  transport : Bool → Bool → Option ℕ → ForwardRequestError
  upgrade_connect : Bool → ForwardRequestError
  response_build upgrade_handshake upgrade_request : ForwardRequestError

-- Whether the guards of a WebSocket upgrade live on in the tunnel or are dropped with the answer.
pub data Guard : Type 0 where
  tunnelled dropped : Guard

unfoldable pub status_code : ForwardRequestError → ℕ
status_code (transport _ _ _) = 502
status_code (upgrade_connect _) = 502
status_code upgrade_handshake = 502
status_code upgrade_request = 502
status_code response_build = 500

unfoldable pub is_retryable_transport : ForwardRequestError → Bool
is_retryable_transport (transport connect timeout _) = connect || timeout
is_retryable_transport (upgrade_connect _) = true
is_retryable_transport upgrade_handshake = true
is_retryable_transport response_build = false
is_retryable_transport upgrade_request = false

pub is_connect : ForwardRequestError → Bool
is_connect (transport connect _ _) = connect
is_connect (upgrade_connect _) = true
is_connect upgrade_handshake = true
is_connect response_build = false
is_connect upgrade_request = false

pub is_timeout : ForwardRequestError → Bool
is_timeout (transport _ timeout _) = timeout
is_timeout (upgrade_connect timed_out) = timed_out
is_timeout response_build = false
is_timeout upgrade_handshake = false
is_timeout upgrade_request = false

pub response_status : ForwardRequestError → Option ℕ
response_status (transport _ _ status) = status
response_status _ = none

-- A header's value, or `none` where `to_str` fails. Names are in lower case.
abbrev pub Headers : Type 0
Headers = List (String × Option String)

pub header_contains_token : Headers → String → String → Bool
unfolding split_from trim_start trim_right eq_ignore_ascii_case
header_contains_token headers name token =
    any
      (λ h. (h.0 == name) && elim h.1 [
        | none ↦ false
        | some value ↦
            any (λ part. eq_ignore_ascii_case (trim_right (trim_start part)) token)
              (split_from "," "" value)
      ])
      headers

unfoldable pub is_websocket_upgrade : Headers → Bool
unfolding header_contains_token
is_websocket_upgrade headers =
    header_contains_token headers "connection" "upgrade"
    && header_contains_token headers "upgrade" "websocket"

-- The headers that are not relayed.
unfoldable pub skipped : String → Bool
skipped n =
    any (λ m. n == m)
      ("host" ∷ "connection" ∷ "keep-alive" ∷ "transfer-encoding" ∷ "te" ∷ "trailer" ∷ "upgrade"
        ∷ "proxy-authorization" ∷ "proxy-connection" ∷ [])

unfoldable pub relayed_headers : Headers → Headers
unfolding skipped
relayed_headers [] = []
relayed_headers (h ∷ hs) = let rest = relayed_headers hs in if skipped h.0 then rest else h ∷ rest

-- The first label of a host, without the port.
unfoldable pub first_label : String → String
unfolding before
first_label host = before ":" (before "." host)

pub extract_job_id_from_host : String → Option String
unfolding first_label
extract_job_id_from_host host =
    let label = first_label host in if is_empty label then none else some label
