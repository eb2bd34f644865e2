-- ===== src/Prelude/Maps.antt =====
-- Maps with text keys, as the functions that a lookup computes: what the concurrent maps, hash
-- maps and sets of the program are used for. A map is never walked in the modelled code.
use Prim.Native.Nat.{ℕ}
use Prim.Native.String.{String}
use mathlib.Core.Bool.{Bool, true, false}
use mathlib.Core.Option.{Option, none, some}
use text.Mathlib.Text.{◌==◌}
use package.nomad_scale_to_zero.Prelude.Tests.{nat_eq, if◌then◌else◌}

module _ {ℓ} {V : Type ℓ} where
  -- `insert`
  abbrev pub put : String → V → (String → Option V) → String → Option V
  put k v m j = if k == j then some v else m j

  -- `remove`
  abbrev pub remove : String → (String → Option V) → String → Option V
  remove k m j = if k == j then none else m j

  abbrev pub is_some : Option V → Bool
  is_some none = false
  is_some (some _) = true

module _ {ℓ} {V : Type ℓ} where
  abbrev pub unwrap_or : Option V → V → V
  unwrap_or none d = d
  unwrap_or (some v) d = v

-- A family indexed by number, changed at one index.
abbrev pub update {ℓ} : {A : Type ℓ} → (ℕ → A) → ℕ → A → ℕ → A
update f i a j = if nat_eq i j then a else f j
