-- ===== src/Variables/Operations.antt =====
-- Any series of calls on a new registry leaves it well formed.
use arduino_cloud_connector.Common.{ℕ, String, Bool, Option, List, [], ◌∷◌, update}
use arduino_cloud_connector.Variables.{
  Variable, Registry, new_registry, set_value, apply_last_values, subscribe, unsubscribe,
}
use arduino_cloud_connector.Variables.Wellformed.{
  IsWellformed, new_registry-IsWellformed, set_value-IsWellformed, apply_last_values-IsWellformed,
  subscribe-IsWellformed, unsubscribe-IsWellformed,
}

-- A call that changes the registry, with the time that it reads.
pub data Operation (V : Type 0) : Type 0 where
  setting : ℕ → String → Option V → ℕ → String → Operation V
  applying : ℕ → List (Variable V) → Operation V
  subscribing : String → String → Bool → Operation V
  unsubscribing : String → ℕ → Operation V

module _ {V : Type 0} where
  abbrev pub operate : Operation V → Registry V → Registry V
  operate (setting now name value ts origin) r = set_value now name value ts origin r
  operate (applying now values) r = apply_last_values now values r
  operate (subscribing name client_id steady) r = (subscribe name client_id steady r).2
  operate (unsubscribing name id) r = unsubscribe name id r

  unfoldable pub operate_all : List (Operation V) → Registry V → Registry V
  operate_all [] r = r
  operate_all (o ∷ os) r = operate_all os (operate o r)

  -- The names under which the subscriptions were opened, after one call more.
  abbrev pub owners : Operation V → Registry V → (ℕ → String) → ℕ → String
  owners (subscribing name client_id steady) r owner = update owner r.next_sub name
  owners _ r owner = owner

  pub operate-IsWellformed :
      (owner : ℕ → String) (o : Operation V) (r : Registry V)
      → IsWellformed owner r
      → IsWellformed (owners o r owner) (operate o r)
  operate-IsWellformed owner (setting now name value ts origin) r w =
      set_value-IsWellformed owner now name value ts origin r w
  operate-IsWellformed owner (applying now values) r w =
      apply_last_values-IsWellformed owner now values r w
  operate-IsWellformed owner (subscribing name client_id steady) r w =
      subscribe-IsWellformed owner name client_id steady r w
  operate-IsWellformed owner (unsubscribing name id) r w =
      unsubscribe-IsWellformed owner name id r w

  operate_all-IsWellformed :
      (owner : ℕ → String) (os : List (Operation V)) (r : Registry V)
      → IsWellformed owner r
      → (owner' : ℕ → String) × IsWellformed owner' (operate_all os r)
  unfolding operate_all
  operate_all-IsWellformed owner [] r w = (owner, w)
  operate_all-IsWellformed owner (o ∷ os) r w =
      operate_all-IsWellformed (owners o r owner) os (operate o r)
        (operate-IsWellformed owner o r w)

  -- After any series of SetValue, ApplyLastValues, Subscribe and Unsubscribe calls on a new
  -- registry the registry is well formed: one entry for each name, each variable stored under its
  -- own name, and each subscription listed at most once, only under the name that it was opened
  -- with, with an identity already given out.
  pub reachable-IsWellformed :
      (os : List (Operation V))
      → (owner : ℕ → String) × IsWellformed owner (operate_all os new_registry)
  reachable-IsWellformed os =
      operate_all-IsWellformed (λ _. "") os new_registry (new_registry-IsWellformed (λ _. ""))
