-- ===== src/Base/Maps.antt =====
-- A Go map with string keys as an association list: reading, writing and the keys.
use mathlib.Core.Path.{◌≡◌, refl}
use mathlib.Core.Option.{Option, none, some}
use mathlib.Core.List.{List, [], ◌∷◌}
use Prim.Native.String.{String}
use native.Mathlib.Omega.{arith}
use text.Mathlib.Text.{◌==◌ as str_eq}
use text.Mathlib.TextEquality.{eq_iff}
use Prim.Native.Nat.{ℕ, suc}
use reverse_traceroute_publi.Base.Tests.{if◌then◌else◌, ◌==◌}
use reverse_traceroute_publi.Base.Lists.{length}

abbrev pub Dict {ℓ} : Type ℓ → Type ℓ
Dict V = List (String × V)

module _ {ℓ} {V : Type ℓ} where
  -- `v, ok := m[key]`.
  unfoldable pub fetch : Dict V → String → Option V
  fetch [] key = none
  fetch ((k, v) ∷ m) key = if str_eq k key then some v else fetch m key

  -- `m[key] = v`.
  unfoldable pub store : Dict V → String → V → Dict V
  store [] key v = (key, v) ∷ []
  store ((k, w) ∷ m) key v = if str_eq k key then (k, v) ∷ m else (k, w) ∷ store m key v

  pub fetch-store :
      (m : Dict V) (key other : String) (v : V)
      → fetch (store m key v) other ≡ (if str_eq key other then some v else fetch m other)
  unfolding fetch store
  fetch-store [] key other v = refl
  fetch-store ((k, w) ∷ m) key other v =
      ground (arith, eq_iff k key, eq_iff k other, eq_iff key other, fetch-store m key other v)

-- `m[key]`, which is the zero value where the key is missing.
abbrev pub or_zero {ℓ} : {V : Type ℓ} → V → Option V → V
or_zero z none = z
or_zero z (some v) = v

-- A Go map whose keys are numbers.
abbrev pub NatDict {ℓ} : Type ℓ → Type ℓ
NatDict V = List (ℕ × V)

module _ {ℓ} {V : Type ℓ} where
  unfoldable pub fetch_at : NatDict V → ℕ → Option V
  fetch_at [] key = none
  fetch_at ((k, v) ∷ m) key = if k == key then some v else fetch_at m key

  unfoldable pub store_at : NatDict V → ℕ → V → NatDict V
  store_at [] key v = (key, v) ∷ []
  store_at ((k, w) ∷ m) key v = if k == key then (k, v) ∷ m else (k, w) ∷ store_at m key v

  pub fetch_at-store_at :
      (m : NatDict V) (key other : ℕ) (v : V)
      → fetch_at (store_at m key v) other ≡ (if key == other then some v else fetch_at m other)
  unfolding fetch_at store_at
  fetch_at-store_at [] key other v = refl
  fetch_at-store_at ((k, w) ∷ m) key other v = ground (arith, fetch_at-store_at m key other v)

  pub length-store_at :
      (m : NatDict V) (key : ℕ) (v : V)
      → fetch_at m key ≡ none
      → length (store_at m key v) ≡ suc (length m)
  unfolding fetch_at store_at
  length-store_at [] key v h = refl
  length-store_at ((k, w) ∷ m) key v h = ground (arith, length-store_at m key v)
