-- ===== src/Core/Effect.antt =====
-- How code with effects is modelled: a function on the state `W` of everything outside the modelled
-- code (Nomad, Consul, Redis, etcd, the clock, the other tasks). An async function that returns
-- `Result<A>` is an `Exec W A`, and its `?` is the bind.
use nomad_scale_to_zero.Prelude.{String}
use nomad_scale_to_zero.Core.Error.{NscaleError, Result, ok, err}

abbrev pub Act {ℓ κ} : Type ℓ → Type κ → Type (ℓ ⊔ κ)
Act W A = W → A × W

abbrev pub Exec {ℓ κ} : Type ℓ → Type κ → Type (ℓ ⊔ κ)
Exec W A = Act W (Result A)

module _ {ℓ κ} {W : Type ℓ} {A : Type κ} where
  abbrev pub pure : A → Exec W A
  pure a w = (ok a, w)

  abbrev pub throw : NscaleError → Exec W A
  throw e w = (err e, w)

  -- `if let Err(e) = … { warn!(…) }` and `let _ = …`: the outcome is dropped
  abbrev pub ignore : Exec W A → W → W
  ignore m w = (m w).1

module _ {ℓ κ μ} {W : Type ℓ} {A : Type κ} {B : Type μ} where
  -- The rest of a function, run on the outcome of an action.
  abbrev pub continue : Result A → (A → Exec W B) → Exec W B
  continue (ok a) f w = f a w
  continue (err e) f w = (err e, w)

  infixl 5 ◌>>=◌
  abbrev pub ◌>>=◌ : Exec W A → (A → Exec W B) → Exec W B
  ◌>>=◌ m f w = continue (m w).0 f (m w).1

  -- `match … .await { … }` on the outcome of an action.
  abbrev pub on : Exec W A → (Result A → W → B) → W → B
  on m f w = f (m w).0 (m w).1

module _ {ℓ κ} {W : Type ℓ} {B : Type κ} where
  infixl 5 ◌>>◌
  abbrev pub ◌>>◌ : Exec W (Unit {0}) → Exec W B → Exec W B
  m >> k = m >>= λ _. k

  -- A step that cannot fail, and the rest.
  abbrev pub also : (W → W) → Exec W B → Exec W B
  also f k w = k (f w)

-- What a call of a third-party client answers: a value, or an error that stands for its text.
pub data Reply {ℓ} (A : Type ℓ) : Type ℓ where
  done : A → Reply A
  refused : String → Reply A

abbrev pub Call {ℓ κ} : Type ℓ → Type κ → Type (ℓ ⊔ κ)
Call W A = Act W (Reply A)

module _ {ℓ} {A : Type ℓ} where
  -- `map_err`
  abbrev pub map_err : (String → NscaleError) → Reply A → Result A
  map_err f (done a) = ok a
  map_err f (refused m) = err (f m)

module _ {ℓ κ} {W : Type ℓ} {A : Type κ} where
  -- A call whose error is wrapped.
  abbrev pub wrap : (String → NscaleError) → Call W A → Exec W A
  wrap f m w = (map_err f (m w).0, (m w).1)

  abbrev pub from : Result A → Exec W A
  from r w = (r, w)
