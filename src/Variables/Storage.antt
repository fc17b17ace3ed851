-- ===== src/Variables/Storage.antt =====
-- What the value store of the registry holds after a write, and what a write leaves alone.
use arduino_cloud_connector.Common.{
  ℕ, ◌≡◌, String, Option, none, some, arith, str_eq, eq_iff, if◌then◌else◌, Option-cases, inl, inr,
}
use arduino_cloud_connector.Common.Dict.{lookup, lookup-insert}
use arduino_cloud_connector.Variables.{
  Variable, Registry, empty_variable, get_or_create, store_value,
}

module _ {V : Type 0} where
  -- Every stored variable carries the name under which it is stored.
  abbrev pub IsNamed : Registry V → Type 0
  IsNamed r = (k : String) (v : Variable V) → lookup k r.vars ≡ some v → v.name ≡ k

  -- The record that a read of `name` sees, before the first write too.
  abbrev pub current : String → Registry V → Variable V
  current name r = elim (lookup name r.vars) [ none ↦ empty_variable name | some v ↦ v ]

  pub get_or_create-current :
      (name : String) (r : Registry V) → (get_or_create name r).0 ≡ current name r
  unfolding get_or_create
  get_or_create-current name r = ground arith

  pub lookup-get_or_create :
      (name k : String) (r : Registry V)
      → lookup k (get_or_create name r).1.vars
        ≡ (if str_eq name k then some (current name r) else lookup k r.vars)
  unfolding get_or_create
  lookup-get_or_create name k r =
      ground (arith, eq_iff name k, lookup-insert name k (empty_variable name) r.vars)

  pub get_or_create-rest :
      (name : String) (r : Registry V)
      → ((get_or_create name r).1.listeners ≡ r.listeners)
        × ((get_or_create name r).1.subs ≡ r.subs)
        × ((get_or_create name r).1.next_sub ≡ r.next_sub)
  unfolding get_or_create
  get_or_create-rest name r = ground arith

  pub current-name : (name : String) (r : Registry V) → IsNamed r → (current name r).name ≡ name
  current-name name r named = elim (Option-cases (lookup name r.vars)) [
    | inl e ↦ ground arith
    | inr (v, e) ↦ ground (arith, named name v e)
  ]

  pub lookup-store_value :
      (name k : String) (value : Option V) (ts : ℕ) (r : Registry V)
      → IsNamed r
      → lookup k (store_value name value ts r).vars ≡ (
          if str_eq name k
          then some (record { name = name; value = value; timestamp = ts })
          else lookup k r.vars)
  unfolding store_value
  lookup-store_value name k value ts r named = rw lookup-insert (
      ground (
        arith,
        lookup-get_or_create name k r,
        get_or_create-current name r,
        current-name name r named,
      ))

  pub store_value-rest :
      (name : String) (value : Option V) (ts : ℕ) (r : Registry V)
      → ((store_value name value ts r).listeners ≡ r.listeners)
        × ((store_value name value ts r).subs ≡ r.subs)
        × ((store_value name value ts r).next_sub ≡ r.next_sub)
  unfolding store_value
  store_value-rest name value ts r = get_or_create-rest name r
