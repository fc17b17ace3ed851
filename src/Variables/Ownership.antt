-- ===== src/Variables/Ownership.antt =====
-- A subscription keeps the name under which it was opened, whatever calls follow.
use arduino_cloud_connector.Common.{ℕ, ◌<◌, ◌≤◌, ◌≡◌, refl, ◌∙◌, String, Bool, List, [], ◌∷◌, arith}
use arduino_cloud_connector.Common.Dict.{Dict}
use arduino_cloud_connector.Variables.{
  Variable, Registry, subscribe, unsubscribe, set_value, apply_last_values, announce, announce_all,
}
use arduino_cloud_connector.Variables.Storage.{get_or_create-rest, store_value-rest}
use arduino_cloud_connector.Variables.Wellformed.{IsWellformed}
use arduino_cloud_connector.Variables.Operations.{
  Operation, setting, applying, subscribing, unsubscribing, operate, operate_all,
  operate-IsWellformed, owners,
}

module _ {V : Type 0} where
  announce_all-next :
      (now : ℕ) (vs : List (Variable V)) (announced : Dict Bool) (r : Registry V)
      → (announce_all now vs announced r).1.next_sub ≡ r.next_sub
  unfolding announce_all announce
  announce_all-next now [] announced r = refl
  announce_all-next now (v ∷ vs) announced r =
      announce_all-next now vs _ (announce now v r) ∙ (store_value-rest v.name v.value _ r).2

  operate-next : (o : Operation V) (r : Registry V) → r.next_sub ≤ (operate o r).next_sub
  unfolding set_value apply_last_values subscribe unsubscribe
  operate-next (setting now name value ts origin) r =
      omega (arith, (store_value-rest name value _ r).2)
  operate-next (applying now values) r = omega (arith, announce_all-next now values [] r)
  operate-next (subscribing name client_id steady) r = omega (arith, (get_or_create-rest name r).2)
  operate-next (unsubscribing name id) r = omega arith

  owners-kept :
      (o : Operation V) (r : Registry V) (owner : ℕ → String) (id : ℕ)
      → id < r.next_sub
      → owners o r owner id ≡ owner id
  owners-kept (setting now name value ts origin) r owner id h = refl
  owners-kept (applying now values) r owner id h = refl
  owners-kept (subscribing name client_id steady) r owner id h = ground arith
  owners-kept (unsubscribing name i) r owner id h = refl

  pub operate_all-owner :
      (owner : ℕ → String) (os : List (Operation V)) (r : Registry V) (id : ℕ)
      → IsWellformed owner r
      → id < r.next_sub
      → (owner' : ℕ → String) × IsWellformed owner' (operate_all os r) × (owner' id ≡ owner id)
  unfolding operate_all
  operate_all-owner owner [] r id w h = (owner, w, refl)
  operate_all-owner owner (o ∷ os) r id w h =
      let (owner', w', same) =
        operate_all-owner (owners o r owner) os (operate o r) id (operate-IsWellformed owner o r w)
          (omega (arith, operate-next o r)) in
      (owner', w', same ∙ owners-kept o r owner id h)
