-- ===== src/Variables/Wellformed.antt =====
-- The invariant of the registry between two calls, and that every call keeps it.
use arduino_cloud_connector.Common.{
  ℕ, String, Bool, true, Option, List, [], ◌∷◌, arith, eq_iff, update, Option-cases, inl, inr,
}
use arduino_cloud_connector.Common.Dict.{DistinctKeys, insert-DistinctKeys, Dict, lookup, insert}
use arduino_cloud_connector.Variables.{
  empty_variable, Variable, Registry, new_registry, get_or_create, store_value, set_value, announce,
  announce_all, apply_last_values, subscribe, unsubscribe,
}
use arduino_cloud_connector.Variables.Listeners.{
  AreListeners, add-AreListeners, remove-AreListeners,
}
use arduino_cloud_connector.Variables.Storage.{
  IsNamed, current-name, lookup-get_or_create, get_or_create-rest, lookup-store_value,
  store_value-rest,
}

module _ {V : Type 0} where
  pub record IsWellformed (owner : ℕ → String) (r : Registry V) : Type 0 where
    pub var_keys : DistinctKeys r.vars
    pub named : IsNamed r
    pub listed : AreListeners owner r.listeners r.next_sub

  pub new_registry-IsWellformed : (owner : ℕ → String) → IsWellformed owner new_registry
  unfolding new_registry lookup
  new_registry-IsWellformed owner = record {
    var_keys = tt;
    named = λ k v e. cc;
    listed = record { keys = tt; distinct = λ k. tt; owned = λ k i e. cc; fresh = λ k i e. cc };
  }

  store_value-IsNamed :
      (r : Registry V) (name : String) (value : Option V) (ts : ℕ)
      → IsNamed r
      → IsNamed (store_value name value ts r)
  store_value-IsNamed r name value ts named k v e =
      ground (arith, eq_iff name k, lookup-store_value name k value ts r named, named k v)

  get_or_create-IsNamed :
      (r : Registry V) (name : String) → IsNamed r → IsNamed (get_or_create name r).1
  get_or_create-IsNamed r name named k v e =
      ground
        (arith, eq_iff name k, lookup-get_or_create name k r, named k v, current-name name r named)

  get_or_create-DistinctKeys :
      (r : Registry V) (name : String)
      → DistinctKeys r.vars
      → DistinctKeys (get_or_create name r).1.vars
  unfolding get_or_create
  get_or_create-DistinctKeys r name d = elim (Option-cases (lookup name r.vars)) [
    | inl e ↦ rw (e, get_or_create) (insert-DistinctKeys name (empty_variable name) r.vars d)
    | inr (v, e) ↦ rw (e, get_or_create) d
  ]

  store_value-DistinctKeys :
      (r : Registry V) (name : String) (value : Option V) (ts : ℕ)
      → DistinctKeys r.vars
      → DistinctKeys (store_value name value ts r).vars
  unfolding store_value
  store_value-DistinctKeys r name value ts d =
      insert-DistinctKeys name _ _ (get_or_create-DistinctKeys r name d)

  store_value-AreListeners :
      (owner : ℕ → String) (r : Registry V) (name : String) (value : Option V) (ts : ℕ)
      → AreListeners owner r.listeners r.next_sub
      → AreListeners owner
          (store_value name value ts r).listeners
          (store_value name value ts r).next_sub
  store_value-AreListeners owner r name value ts w =
      let rest = store_value-rest name value ts r in rw (rest.0, rest.2) w

  pub set_value-IsWellformed :
      (owner : ℕ → String) (now : ℕ) (name : String) (value : Option V) (ts : ℕ) (origin : String)
      (r : Registry V)
      → IsWellformed owner r
      → IsWellformed owner (set_value now name value ts origin r)
  unfolding set_value
  set_value-IsWellformed owner now name value ts origin r w = record {
    var_keys = store_value-DistinctKeys r name value _ w.var_keys;
    named = store_value-IsNamed r name value _ w.named;
    listed = store_value-AreListeners owner r name value _ w.listed;
  }

  pub announce-IsWellformed :
      (owner : ℕ → String) (now : ℕ) (v : Variable V) (r : Registry V)
      → IsWellformed owner r
      → IsWellformed owner (announce now v r)
  unfolding announce
  announce-IsWellformed owner now v r w = record {
    var_keys = store_value-DistinctKeys r v.name v.value _ w.var_keys;
    named = store_value-IsNamed r v.name v.value _ w.named;
    listed = store_value-AreListeners owner r v.name v.value _ w.listed;
  }

  pub announce_all-IsWellformed :
      (owner : ℕ → String) (now : ℕ) (vs : List (Variable V)) (announced : Dict Bool)
      (r : Registry V)
      → IsWellformed owner r
      → IsWellformed owner (announce_all now vs announced r).1
  unfolding announce_all
  announce_all-IsWellformed owner now [] announced r w = w
  announce_all-IsWellformed owner now (v ∷ vs) announced r w =
      announce_all-IsWellformed owner now vs (insert v.name true announced) (announce now v r)
        (announce-IsWellformed owner now v r w)

  pub apply_last_values-IsWellformed :
      (owner : ℕ → String) (now : ℕ) (vs : List (Variable V)) (r : Registry V)
      → IsWellformed owner r
      → IsWellformed owner (apply_last_values now vs r)
  unfolding apply_last_values
  apply_last_values-IsWellformed owner now vs r w =
      let done = announce_all-IsWellformed owner now vs [] r w in
      record { var_keys = done.var_keys; named = done.named; listed = done.listed }

  pub subscribe-IsWellformed :
      (owner : ℕ → String) (name client_id : String) (steady : Bool) (r : Registry V)
      → IsWellformed owner r
      → IsWellformed (update owner r.next_sub name) (subscribe name client_id steady r).2
  unfolding subscribe
  subscribe-IsWellformed owner name client_id steady r w =
      let rest = get_or_create-rest name r in
      record {
        var_keys = get_or_create-DistinctKeys r name w.var_keys;
        named = get_or_create-IsNamed r name w.named;
        listed = rw (rest.0, rest.2) (add-AreListeners owner r.listeners r.next_sub name w.listed);
      }

  pub unsubscribe-IsWellformed :
      (owner : ℕ → String) (name : String) (id : ℕ) (r : Registry V)
      → IsWellformed owner r
      → IsWellformed owner (unsubscribe name id r)
  unfolding unsubscribe
  unsubscribe-IsWellformed owner name id r w = elim (Option-cases (lookup name r.listeners)) [
    | inl e ↦ record {
      var_keys = w.var_keys;
      named = w.named;
      listed = rw (e, unsubscribe) w.listed;
    }
    | inr (ids, e) ↦ record {
      var_keys = w.var_keys;
      named = w.named;
      listed =
          rw (e, unsubscribe)
            (remove-AreListeners owner r.listeners r.next_sub name id ids e w.listed);
    }
  ]
