-- ===== src/Scaler/TrafficProbe.antt =====
-- crates/nscale-scaler/src/traffic_probe.rs: the probe that reads Traefik's request counters. The HTTP
-- client is not part of the program, and neither is the parser of floating-point numbers, with the
-- conversion to `u64`: `parse_count`.
pub mod Totals
pub mod Tests
use nomad_scale_to_zero.Prelude.{
  ℕ, ◌+◌, ◌%◌, ◌^◌, ◌<◌, ◌≡◌, refl, String, Bool, true, false, Option, none, some, List, [], ◌∷◌,
  put, remove, ltb, leb, ◌&&◌, ◌||◌, arith, eq_iff, if◌then◌else◌,
}
use nomad_scale_to_zero.Prelude.Text.{
  append, show, is_empty, starts_with, contains, after_last, lines, trim_end,
}
use nomad_scale_to_zero.Core.Job.{JobId}
use nomad_scale_to_zero.Core.Error.{NscaleError, consul, Result, ok, err}
use nomad_scale_to_zero.Core.Effect.{Exec, Call, pure, throw, wrap, ◌>>=◌}

pub record Response (W : Type 0) : Type 0 where
  pub status : ℕ
  pub reason : String
  pub text : Call W String

pub record TrafficProbe (W : Type 0) : Type 0 where
  pub get : String → Call W (Response W)
  pub parse_count : String → Option ℕ
  pub metrics_url : String
  pub provider : String

pub record State (W : Type 0) : Type 0 where
  pub world : W
  pub last_counts : String → Option (Option ℕ)

unfoldable pub new :
    {W : Type 0}
    → (String → Call W (Response W))
    → (String → Option ℕ)
    → String
    → String
    → TrafficProbe W
unfolding trim_end
new get parse_count metrics_url provider = record {
  get = get;
  parse_count = parse_count;
  metrics_url = trim_end "/" metrics_url;
  provider = provider;
}

module _ (parse_count : String → Option ℕ) where
  -- The value of a line that the loop adds up.
  pub sample : String → String → Option ℕ
  unfolding contains after_last
  sample needle line =
      if starts_with "#" line || is_empty line
      then none
      else if starts_with "traefik_service_requests_total{" line && contains needle line
      then elim (after_last " " line) [ none ↦ none | some v ↦ parse_count v ]
      else none

  -- One turn of the loop: `total` is a `u64`.
  pub add_line : String → String → ℕ → ℕ
  unfolding sample
  add_line needle line total = elim (sample needle line) [
    | none ↦ total
    | some v ↦ (total + v) % 2 ^ 64
  ]

  pub add_lines : String → List String → ℕ → ℕ
  unfolding add_line
  add_lines needle [] total = total
  add_lines needle (line ∷ rest) total = add_lines needle rest (add_line needle line total)

  pub parse_service_requests_total : String → String → ℕ
  unfolding add_lines
  parse_service_requests_total body service_label =
      add_lines (append "service=\"" (append service_label "\"")) (lines body) 0

module _ {W : Type 0} (p : TrafficProbe W) where
  abbrev pub service_label : JobId → String
  service_label job = append job (append "@" p.provider)

  -- The rest of `scrape_request_count`, once the response is there.
  pub read_response : String → Response W → Exec W ℕ
  unfolding parse_service_requests_total
  read_response label resp =
      if leb 200 resp.status && ltb resp.status 300
      then (wrap (λ e. consul (append "failed to read metrics body: " e)) resp.text >>= λ body.
          pure (parse_service_requests_total p.parse_count body label))
      else throw (
          consul (
            append "traefik metrics returned "
              (append (show resp.status) (append " " resp.reason))))

  pub scrape_request_count : String → Exec W ℕ
  unfolding read_response
  scrape_request_count label = do
    resp ←
        wrap (λ e. consul (append "traefik metrics fetch failed: " e))
          (p.get (append p.metrics_url "/metrics"))
    read_response label resp

  -- `last.get(label).copied().flatten()`
  abbrev pub previous : String → State W → Option ℕ
  previous label s = elim (s.last_counts label) [ none ↦ none | some c ↦ c ]

  abbrev pub grown : Option ℕ → ℕ → Bool
  grown none current = ltb 0 current
  grown (some before) current = ltb before current

  -- What follows the scrape.
  pub compare : JobId → Result ℕ → Exec (State W) Bool
  compare job (err e) s = (err e, s)
  compare job (ok current) s = (
    ok (grown (previous (service_label job) s) current),
    record s { last_counts = put (service_label job) (some current) s.last_counts },
  )

  pub has_active_traffic : JobId → Exec (State W) Bool
  unfolding scrape_request_count compare
  has_active_traffic job s =
      let answer = scrape_request_count (service_label job) s.world in
      compare job answer.0 (record s { world = answer.1 })

  pub clear_baseline : JobId → State W → State W
  clear_baseline job s = record s { last_counts = remove (service_label job) s.last_counts }

  -- Two checks of a job, whatever happens elsewhere in between: the second reports traffic exactly
  -- when the counter has grown since the first. Where the baseline has been cleared in between, it
  -- reports traffic exactly when the counter is not zero, also if no request has been routed since the
  -- first.
  pub traffic_since :
      (job : JobId) (s : State W) (w : W) (first second : ℕ)
      → (scrape_request_count (service_label job) s.world).0 ≡ ok first
      → (scrape_request_count (service_label job) w).0 ≡ ok second
      → let t = record (has_active_traffic job s).1 { world = w } in
        ((has_active_traffic job t).0 ≡ ok (ltb first second))
        × ((has_active_traffic job (clear_baseline job t)).0 ≡ ok (ltb 0 second))
  unfolding has_active_traffic clear_baseline compare
  traffic_since job s w first second a b = (
    ground (arith, eq_iff (service_label job) (service_label job)),
    ground (arith, eq_iff (service_label job) (service_label job)),
  )
