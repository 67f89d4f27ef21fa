-- ===== src/Prelude/Maps.antt =====
-- A Go map with text keys, as an association list: a write replaces the entry of its key or adds
-- one, `delete` removes the key, and the order of the entries is the order that `range` takes.
use Prim.Native.String.{String}
use mathlib.Core.Path.{◌≡◌, refl}
use mathlib.Core.Bool.{true, false}
use mathlib.Core.Option.{Option, none, some}
use mathlib.Core.List.{List, [], ◌∷◌}
use native.Mathlib.Omega.{arith}
use text.Mathlib.Text.{◌==◌}
use text.Mathlib.TextEquality.{eq_iff}
use controller_mesh.Prelude.Tests.{if◌then◌else◌}

abbrev pub Map {ℓ} : Type ℓ → Type ℓ
Map V = List (String × V)

module _ {ℓ} {V : Type ℓ} where
  -- `delete(m, key)`.
  unfoldable pub erase : String → Map V → Map V
  erase key [] = []
  erase key ((other, w) ∷ entries) =
      let rest = erase key entries in
      elim (other == key) [ true ↦ rest | false ↦ (other, w) ∷ rest ]

  -- `m[key]`, with whether it is there.
  unfoldable pub lookup : String → Map V → Option V
  lookup key [] = none
  lookup key ((other, w) ∷ entries) =
      let rest = lookup key entries in elim (other == key) [ true ↦ some w | false ↦ rest ]

  pub lookup-nil : (key : String) → lookup key [] ≡ none
  unfolding lookup
  lookup-nil key = refl

  -- What a removal and a write leave at every key.
  pub lookup-erase :
      (key at : String) (entries : Map V)
      → lookup at (erase key entries) ≡ (if key == at then none else lookup at entries)
  unfolding lookup erase
  lookup-erase key at [] = ground arith
  lookup-erase key at ((other, w) ∷ entries) =
      ground (arith, eq_iff key at, eq_iff other key, eq_iff other at, lookup-erase key at entries)

  -- `m[key] = v`.
  unfoldable pub insert : String → V → Map V → Map V
  insert key v [] = (key, v) ∷ []
  insert key v ((other, w) ∷ entries) = elim (other == key) [
    | true ↦ (key, v) ∷ entries
    | false ↦ (other, w) ∷ insert key v entries
  ]

  pub lookup-insert :
      (key at : String) (v : V) (entries : Map V)
      → lookup at (insert key v entries) ≡ (if key == at then some v else lookup at entries)
  unfolding insert lookup
  lookup-insert key at v [] = ground arith
  lookup-insert key at v ((other, w) ∷ entries) =
      let ih = lookup-insert key at v entries in
      ground (arith, ih, eq_iff other at, eq_iff other key, eq_iff key at)
