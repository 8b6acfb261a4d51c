-- ===== src/Prelude/Map.antt =====
-- `BTreeMap` and `HashMap` keyed by `String`: an association list, one entry to a key.
use Prim.Native.String.{String}
use mathlib.Core.Path.{◌≡◌, refl}
use mathlib.Core.Option.{Option, none, some}
use mathlib.Core.List.{List, [], ◌∷◌}
use native.Mathlib.Omega.{arith}
use text.Mathlib.Text.{◌==◌}
use text.Mathlib.TextEquality.{eq_iff}
use sdkwork_rpc_framework.Prelude.Tests.{if◌then◌else◌}

abbrev pub Map : Type 0 → Type 0
Map V = List (String × V)

module _ {V : Type 0} where
  -- `map.insert(key, value)`, `map.get(key)` and `map.remove(key)`.
  unfoldable pub insert : String → V → Map V → Map V
  insert key value [] = (key, value) ∷ []
  insert key value (entry ∷ entries) =
      if key == entry.0 then (key, value) ∷ entries else entry ∷ insert key value entries

  unfoldable pub lookup : String → Map V → Option V
  lookup key [] = none
  lookup key (entry ∷ entries) = if key == entry.0 then some entry.1 else lookup key entries

  unfoldable pub remove : String → Map V → Map V
  remove key [] = []
  remove key (entry ∷ entries) =
      if key == entry.0 then remove key entries else entry ∷ remove key entries

  -- What a key finds after another key was written or removed.
  pub lookup-insert :
      (key written : String) (value : V) (entries : Map V)
      → lookup key (insert written value entries)
        ≡ (if key == written then some value else lookup key entries)
  unfolding insert lookup
  lookup-insert key written value [] = refl
  lookup-insert key written value (entry ∷ entries) = ground (
    arith,
    lookup-insert key written value entries,
    eq_iff key written,
    eq_iff written entry.0,
    eq_iff key entry.0,
  )

  pub lookup-remove :
      (key gone : String) (entries : Map V)
      → lookup key (remove gone entries) ≡ (if key == gone then none else lookup key entries)
  unfolding lookup remove
  lookup-remove key gone [] = ground arith
  lookup-remove key gone (entry ∷ entries) = ground (
    arith,
    lookup-remove key gone entries,
    eq_iff key gone,
    eq_iff gone entry.0,
    eq_iff key entry.0,
  )
