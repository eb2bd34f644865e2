-- ===== src/Scaler/TrafficProbe/Totals.antt =====
-- traffic_probe.rs: what the loop over the lines of the metrics adds up.
use Prim.Native.Char.{code}
use Prim.Native.String.append
use text.Mathlib.TextEquality.{starts_with_iff}
use nomad_scale_to_zero.Prelude.{
  ℕ, ◌+◌, ◌%◌, ◌^◌, ◌<◌, ◌≡◌, ◌≢◌, refl, String, Bool, true, false, Option, none, some, List, [],
  ◌∷◌, if◌then◌else◌, ◌∙◌, sym, ap, ◌&&◌, ◌||◌, arith, Bool-cases, inl, inr,
}
use nomad_scale_to_zero.Prelude.Text.{append, is_empty, starts_with, contains, after_last, lines}
use nomad_scale_to_zero.Scaler.TrafficProbe.{
  sample, add_line, add_lines, parse_service_requests_total,
}

-- A line is a sample of Traefik's request counter for the service with the label.
abbrev pub counts_requests_of : String → String → Bool
counts_requests_of label line =
    starts_with "traefik_service_requests_total{" line
    && contains (append "service=\"" (append label "\"")) line

first : String → ℕ
first String.[] = 0
first (String.◌∷◌ c s) = code c

first-starts_with :
    (p line : String) → first p ≢ 0 → starts_with p line ≡ true → first line ≡ first p
unfolding first
first-starts_with String.[] line d h = absurd (d refl)
first-starts_with (String.◌∷◌ c p) line d h =
    let (u, e) = (starts_with_iff line (String.◌∷◌ c p)).0 h in ap first (sym e ∙ append.cons c p u)

not_blank : (line : String) → first line ≡ 116 → is_empty line ≡ false
unfolding first
not_blank String.[] h = absurd (omega (arith, h))
not_blank (String.◌∷◌ c s) h = refl

-- No sample is a comment or blank.
sample_no_comment :
    (line : String)
    → starts_with "traefik_service_requests_total{" line ≡ true
    → (starts_with "#" line || is_empty line) ≡ false
unfolding first
sample_no_comment line h =
    let sample : first line ≡ 116 =
      first-starts_with "traefik_service_requests_total{" line (omega arith) h in
    elim (Bool-cases (starts_with "#" line)) [
      | inl e ↦
          (let comment : first line ≡ 35 = first-starts_with "#" line (omega arith) e in
            absurd (omega (arith, sample, comment)))
      | inr e ↦ rw e (not_blank line sample)
    ]

module _ (parse_count : String → Option ℕ) where
  -- The number that stands behind the last space of a line, and 0 where none stands there.
  abbrev pub number_of : String → ℕ
  number_of line = elim (after_last " " line) [
    | none ↦ 0
    | some v ↦ elim (parse_count v) [ none ↦ 0 | some n ↦ n ]
  ]

  -- The numbers of the lines that are samples for the service, added up.
  abbrev pub requests_of : String → List String → ℕ
  requests_of label [] = 0
  requests_of label (line ∷ rest) =
      (if counts_requests_of label line then number_of line else 0) + requests_of label rest

  sample-counts :
      (label line : String)
      → elim (sample parse_count (append "service=\"" (append label "\"")) line) [
        | none ↦ 0
        | some v ↦ v
      ]
        ≡ (if counts_requests_of label line then number_of line else 0)
  unfolding sample
  sample-counts label line =
      elim (Bool-cases (starts_with "traefik_service_requests_total{" line)) [
        | inl e ↦ rw (e, sample) (rw (sample_no_comment line e) (ground arith))
        | inr e ↦ rw (e, sample) (ground arith)
      ]

  add_lines-requests :
      (label : String) (ls : List String) (total : ℕ)
      → total < 2 ^ 64
      → add_lines parse_count (append "service=\"" (append label "\"")) ls total
        ≡ (total + requests_of label ls) % 2 ^ 64
  unfolding add_lines add_line
  add_lines-requests label [] total h = ground arith
  add_lines-requests label (line ∷ rest) total h = ground (
    arith,
    sample-counts label line,
    add_lines-requests label rest
        (add_line parse_count (append "service=\"" (append label "\"")) line total),
  )

  -- The total of a service is, modulo 2 ^ 64, the sum of the numbers that stand last on the lines that
  -- begin as samples of Traefik's request counter and name the service, where the parser takes them;
  -- no other line counts, and comments and blank lines are no such lines.
  pub parse_total-requests :
      (body service_label : String)
      → parse_service_requests_total parse_count body service_label
        ≡ requests_of service_label (lines body) % 2 ^ 64
  unfolding parse_service_requests_total
  parse_total-requests body service_label =
      ground (arith, add_lines-requests service_label (lines body) 0 (omega arith))
