-- ===== src/Api/Released.antt =====
-- HandleVariableEvents: its subscription is gone when it has returned.
use arduino_cloud_connector.Common.{
  ℕ, ◌<◌, ◌≡◌, ◌∙◌, String, Bool, true, false, Option, List, mem, update, arith,
}
use arduino_cloud_connector.Variables.{Registry, subscribe, unsubscribe, listening, stop}
use arduino_cloud_connector.Variables.Storage.{get_or_create-rest}
use arduino_cloud_connector.Variables.Operations.{Operation, operate_all}
use arduino_cloud_connector.Variables.Ownership.{operate_all-owner}
use arduino_cloud_connector.Variables.Wellformed.{IsWellformed, subscribe-IsWellformed}
use arduino_cloud_connector.Variables.Subscribe.{unsubscribed_out}
use arduino_cloud_connector.Api.Frame.{Writing}
use arduino_cloud_connector.Api.Stream.{Payload, Turn, client_id, handle_variable_events}

module _ {V : Type 0} where
  subscribe-id :
      (name client_id : String) (steady : Bool) (r : Registry V)
      → ((subscribe name client_id steady r).1 ≡ r.next_sub)
        × (r.next_sub < (subscribe name client_id steady r).2.next_sub)
  unfolding subscribe
  subscribe-id name client_id steady r =
      let rest = get_or_create-rest name r in (rest.2, omega (arith, rest.2))

  unsubscribe-closed :
      (name : String) (id : ℕ) (r : Registry V) → ((unsubscribe name id r).subs id).closed ≡ true
  unfolding unsubscribe stop
  unsubscribe-closed name id r = ground arith

  -- Nobody lists the subscription any more, and its pump is told to stop.
  abbrev pub IsReleased : ℕ → Registry V → Type 0
  IsReleased id r = ((k : String) → mem id (listening k r) ≡ false) × ((r.subs id).closed ≡ true)

  -- On a well-formed registry, however a call of HandleVariableEvents ends and whatever calls
  -- others made meanwhile, after it no listener list has its subscription and the subscription's
  -- pump is told to stop.
  pub events-IsReleased :
      (marshal : Payload V → Option (List ℕ)) (is_flusher : Bool) (w : Writing)
      (turns : List (Turn V)) (others : List (Operation V)) (name header : String)
      (cloud_steady : Bool) (owner : ℕ → String) (r : Registry V)
      → IsWellformed owner r
      → IsReleased r.next_sub
          (handle_variable_events marshal is_flusher w turns others name header cloud_steady r).1
  unfolding handle_variable_events
  events-IsReleased marshal is_flusher w turns others name header cloud_steady owner r wf =
      let r' = (subscribe name (client_id header) cloud_steady r).2 in
      let (is_next, later) = subscribe-id name (client_id header) cloud_steady r in
      let (owner', wf', same) =
        operate_all-owner (update owner r.next_sub name) others r' r.next_sub
          (subscribe-IsWellformed owner name (client_id header) cloud_steady r wf) later in
      rw is_next (
        (λ k.
            unsubscribed_out owner' name r.next_sub (operate_all others r') k (same ∙ ground arith)
              wf'),
        unsubscribe-closed name r.next_sub (operate_all others r'),
      )
