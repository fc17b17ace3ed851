-- ===== src/Common/Dict.antt =====
-- Go's map with string keys, as an association list with one entry for each key.
use Prim.Native.String.{String}
use mathlib.Core.Path.{◌≡◌, refl}
use mathlib.Core.Bool.{Bool, false, ◌||◌}
use mathlib.Core.Option.{Option, none, some}
use mathlib.Core.List.{List, [], ◌∷◌}
use native.Mathlib.Omega.{arith}
use text.Mathlib.Text.{◌==◌ as str_eq}
use text.Mathlib.TextEquality.{eq_iff}
use arduino_cloud_connector.Common.Tests.{if◌then◌else◌}

abbrev pub Dict {ℓ} : Type ℓ → Type ℓ
Dict V = List (String × V)

module _ {ℓ} {V : Type ℓ} where
  -- The entry of a key, or the zero value where it is missing.
  abbrev pub or_zero : V → Option V → V
  or_zero z none = z
  or_zero z (some v) = v

  abbrev pub has_key : String → Dict V → Bool
  has_key name [] = false
  has_key name ((key, value) ∷ rest) = str_eq key name || has_key name rest

  unfoldable pub insert : String → V → Dict V → Dict V
  insert name new [] = (name, new) ∷ []
  insert name new ((key, value) ∷ rest) =
      if str_eq key name then (name, new) ∷ rest else (key, value) ∷ insert name new rest

  -- No two entries have the same key.
  abbrev pub DistinctKeys : Dict V → Type 0
  DistinctKeys [] = Unit
  DistinctKeys ((key, value) ∷ rest) = (has_key key rest ≡ false) × DistinctKeys rest

  has_key-insert :
      (name other : String) (new : V) (d : Dict V)
      → has_key other (insert name new d) ≡ (str_eq name other || has_key other d)
  unfolding insert
  has_key-insert name other new [] = refl
  has_key-insert name other new ((key, value) ∷ rest) = ground (
    arith,
    has_key-insert name other new rest,
    eq_iff name other,
    eq_iff key name,
    eq_iff key other,
  )

  pub insert-DistinctKeys :
      (name : String) (new : V) (d : Dict V) → DistinctKeys d → DistinctKeys (insert name new d)
  unfolding insert
  insert-DistinctKeys name new [] distinct = (refl, tt)
  insert-DistinctKeys name new ((key, value) ∷ rest) distinct = ground (
    arith,
    has_key-insert name key new rest,
    insert-DistinctKeys name new rest distinct.1,
    eq_iff key name,
    eq_iff name key,
  )

  unfoldable pub lookup : String → Dict V → Option V
  lookup name [] = none
  lookup name ((key, value) ∷ rest) = if str_eq key name then some value else lookup name rest

  pub lookup_missing : (name : String) (d : Dict V) → has_key name d ≡ false → lookup name d ≡ none
  unfolding lookup
  lookup_missing name [] h = refl
  lookup_missing name ((key, value) ∷ rest) h = ground (arith, lookup_missing name rest)

  pub lookup-insert :
      (name other : String) (new : V) (d : Dict V)
      → lookup other (insert name new d) ≡ (if str_eq name other then some new else lookup other d)
  unfolding lookup insert
  lookup-insert name other new [] = refl
  lookup-insert name other new ((key, value) ∷ rest) = ground (
    lookup-insert name other new rest,
    arith,
    eq_iff name other,
    eq_iff key name,
    eq_iff key other,
  )
