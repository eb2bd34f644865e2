-- ===== src/Scaler/TrafficProbe/Tests.antt =====
-- traffic_probe.rs on concrete metrics.
use nomad_scale_to_zero.Prelude.{
  ℕ, ◌%◌, ◌^◌, String, ◌≡◌, refl, Option, none, some, ltb, ◌==◌, if◌then◌else◌,
}
use nomad_scale_to_zero.Prelude.Text.{lines, lines_from}
use nomad_scale_to_zero.Core.Effect.{done}
use nomad_scale_to_zero.Core.Error.{ok}
use nomad_scale_to_zero.Scaler.TrafficProbe.{
  TrafficProbe, State, parse_service_requests_total, scrape_request_count, has_active_traffic,
  clear_baseline, traffic_since,
}
use nomad_scale_to_zero.Scaler.TrafficProbe.Totals.{requests_of, parse_total-requests}

abbrev parse_42 : String → Option ℕ
parse_42 v = if v == "42" then some 42 else if v == "43" then some 43 else none

abbrev metrics : String
metrics =
    "# HELP requests\n\ntraefik_service_requests_total{code=\"200\",service=\"web@consul\"} 42\ntraefik_service_requests_total{code=\"200\",service=\"api@consul\"} 43\n"

parse_total-requests_example :
    parse_service_requests_total parse_42 metrics "web@consul"
    ≡ requests_of parse_42 "web@consul" (lines metrics) % 2 ^ 64
parse_total-requests_example = parse_total-requests parse_42 metrics "web@consul"

-- The state counts how often the metrics were read: 42 at first, and then 43.
abbrev line : ℕ → String
line ℕ.zero = "traefik_service_requests_total{service=\"web@consul\"} 42"
line (ℕ.suc n) = "traefik_service_requests_total{service=\"web@consul\"} 43"

abbrev probe : TrafficProbe ℕ
probe = record {
  get = λ url w.
      (done (record { status = 200; reason = "OK"; text = λ v. (done (line w), ℕ.suc w) }), w);
  parse_count = parse_42;
  metrics_url = "http://traefik:8080";
  provider = "consul";
}

abbrev start : State ℕ
start = record { world = 0; last_counts = λ label. none }

traffic_since_example :
    let t = record (has_active_traffic probe "web" start).1 { world = 1 } in
    ((has_active_traffic probe "web" t).0 ≡ ok (ltb 42 43))
    × ((has_active_traffic probe "web" (clear_baseline probe "web" t)).0 ≡ ok (ltb 0 43))
unfolding scrape_request_count lines_from
traffic_since_example = traffic_since probe "web" start 1 42 43 refl refl
