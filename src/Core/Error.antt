-- ===== src/Core/Error.antt =====
-- crates/nscale-core/src/error.rs. An error of a third-party crate stands for its printed text. The
-- `elapsed_secs` of a wake timeout is a whole number: every timeout comes from `Duration::from_secs`.
use nomad_scale_to_zero.Prelude.{ℕ, String, Option, none, some, ◌≡◌, refl, arith}
use nomad_scale_to_zero.Prelude.Text.{append, show}

pub data NscaleError : Type 0 where
  nomad : String → NscaleError
  deployment_in_progress : String → String → NscaleError
  consul store proxy : String → NscaleError
  wake_timeout : String → ℕ → NscaleError
  job_not_found job_not_ready wake_abandoned config http json : String → NscaleError

-- `Display`, by the `#[error(…)]` attributes
pub to_string : NscaleError → String
to_string (nomad m) = append "nomad API error: " m
to_string (deployment_in_progress job operation) =
    append "nomad deployment in progress for job "
      (append job (append " while attempting " operation))
to_string (consul m) = append "consul API error: " m
to_string (store m) = append "store error: " m
to_string (proxy m) = append "proxy error: " m
to_string (wake_timeout job secs) =
    append "wake timeout for job " (append job (append " after " (append (show secs) ".0s")))
to_string (job_not_found m) = append "job not found: " m
to_string (job_not_ready m) = append "job not ready: " m
to_string (wake_abandoned job) =
    append "wake abandoned for job " (append job ": all subscribers disconnected")
to_string (config m) = append "configuration error: " m
to_string (http m) = append "HTTP error: " m
to_string (json m) = append "JSON error: " m

pub data Result {ℓ} (A : Type ℓ) : Type ℓ where
  ok : A → Result A
  err : NscaleError → Result A

module _ {ℓ κ} {A : Type ℓ} {B : Type κ} where
  -- `?` on a result, and the rest.
  abbrev pub and_then : Result A → (A → Result B) → Result B
  and_then (ok a) f = f a
  and_then (err e) f = err e

  pub and_then-eq-ok :
      (r : Result A) (f : A → Result B) (b : B)
      → and_then r f ≡ ok b
      → (a : A) × (r ≡ ok a) × (f a ≡ ok b)
  and_then-eq-ok (ok a) f b h = (a, refl, h)
  and_then-eq-ok (err e) f b h = absurd (ground arith)

abbrev pub ok_or {ℓ} : {A : Type ℓ} → NscaleError → Option A → Result A
ok_or e none = err e
ok_or e (some a) = ok a
