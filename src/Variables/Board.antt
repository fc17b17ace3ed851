-- ===== src/Variables/Board.antt =====
-- The board's value of each variable after the last values were applied.
use arduino_cloud_connector.Common.{
  ℕ, ◌≡◌, refl, String, Bool, true, Option, some, List, [], ◌∷◌, str_eq, if◌then◌else◌,
}
use arduino_cloud_connector.Common.Dict.{Dict, lookup, insert}
use arduino_cloud_connector.Variables.{
  Variable, Registry, get, default_time, announce, announce_all, apply_last_values,
}
use arduino_cloud_connector.Variables.Storage.{IsNamed, lookup-store_value}
use arduino_cloud_connector.Variables.Wellformed.{IsWellformed, announce-IsWellformed}

module _ {V : Type 0} where
  -- A variable as it is stored: a missing time is the present.
  abbrev pub stamped : ℕ → Variable V → Variable V
  stamped now v = record v { timestamp = default_time v.timestamp now }

  -- The last announcement of `k` in the payload, or what was there before.
  abbrev pub last_announced :
      String → ℕ → List (Variable V) → Option (Variable V) → Option (Variable V)
  last_announced k now [] before = before
  last_announced k now (v ∷ vs) before =
      last_announced k now vs (if str_eq v.name k then some (stamped now v) else before)

  lookup-announce :
      (now : ℕ) (v : Variable V) (r : Registry V) (k : String)
      → IsNamed r
      → lookup k (announce now v r).vars
        ≡ (if str_eq v.name k then some (stamped now v) else lookup k r.vars)
  unfolding announce
  lookup-announce now v r k named =
      lookup-store_value v.name k v.value (default_time v.timestamp now) r named

  lookup-announce_all :
      (owner : ℕ → String) (now : ℕ) (vs : List (Variable V)) (announced : Dict Bool)
      (r : Registry V) (k : String)
      → IsWellformed owner r
      → lookup k (announce_all now vs announced r).1.vars
        ≡ last_announced k now vs (lookup k r.vars)
  unfolding announce_all
  lookup-announce_all owner now [] announced r k w = refl
  lookup-announce_all owner now (v ∷ vs) announced r k w =
      rw (← lookup-announce now v r k w.named) (
        lookup-announce_all owner now vs (insert v.name true announced) (announce now v r) k
          (announce-IsWellformed owner now v r w))

  -- On a well-formed registry, after ApplyLastValues a variable has the last value that the payload
  -- announces for its name, with the present for a zero time, and keeps its old value if the
  -- payload does not name it.
  pub get-apply_last_values :
      (owner : ℕ → String) (now : ℕ) (vs : List (Variable V)) (r : Registry V) (k : String)
      → IsWellformed owner r
      → get k (apply_last_values now vs r) ≡ last_announced k now vs (get k r)
  unfolding get apply_last_values
  get-apply_last_values owner now vs r k w = lookup-announce_all owner now vs [] r k w
