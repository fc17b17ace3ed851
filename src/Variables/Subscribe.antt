-- ===== src/Variables/Subscribe.antt =====
-- Subscribe and Unsubscribe: the first frame, and that no later write is missed.
use arduino_cloud_connector.Common.{
  ℕ, ◌≡◌, refl, String, Bool, true, false, not, ◌&&◌, none, List, [], ◌∷◌, arith, ◌∙◌, eq_iff, ◌==◌,
  if◌then◌else◌, mem, mem-append, update, map, select, eq_refl, Option-cases, inl, inr,
}
use arduino_cloud_connector.Common.Dict.{lookup}
use arduino_cloud_connector.Variables.{
  Variable, Registry, listening, subscribe, unsubscribe, first_frame, new_subscription, stop,
  EventKind, thing_unavailable, last_value, last_value_missing, apply_last_values,
}
use arduino_cloud_connector.Variables.Storage.{current, get_or_create-current, get_or_create-rest}
use arduino_cloud_connector.Variables.Listeners.{ids_at-insert, not-mem-remove_id}
use arduino_cloud_connector.Variables.Wellformed.{
  IsWellformed, subscribe-IsWellformed, unsubscribe-IsWellformed,
}
use arduino_cloud_connector.Variables.SetValue.{
  Write, run_writes, run_writes_queue, run_writes_stranger, reaches, event_of,
}
use arduino_cloud_connector.Variables.Verdict.{answer, apply_last_values_verdict}

-- The frame that leaves the subscriber waiting.
abbrev pub is_unavailable : EventKind → Bool
is_unavailable thing_unavailable = true
is_unavailable last_value = false
is_unavailable last_value_missing = false
is_unavailable _ = false

module _ {V : Type 0} where
  -- The board has a value for the variable: it was written at least once.
  abbrev pub has_value : String → Registry V → Bool
  has_value name r = not ((current name r).timestamp == 0)

  subscribe_sub :
      (name client_id : String) (steady : Bool) (r : Registry V)
      → let (evt, id, r') = subscribe name client_id steady r in
        (id ≡ r.next_sub)
        × (r'.subs id ≡ record (new_subscription client_id) {
          pending = (first_frame (current name r) name steady).1;
        })
        × (evt ≡ (first_frame (current name r) name steady).0)
        × (mem id (listening name r') ≡ true)
  unfolding subscribe
  subscribe_sub name client_id steady r =
      let rest = get_or_create-rest name r in
      rw (rest.0, rest.2, get_or_create-current name r, ids_at-insert name name, eq_refl name)
        (
          refl,
          ground arith,
          refl,
          ground (arith, mem-append r.next_sub (listening name r) (r.next_sub ∷ [])),
        )

  -- The state that the registry is in after the call.
  abbrev pub subscribed : String → String → Bool → Registry V → Registry V
  subscribed name client_id steady r = (subscribe name client_id steady r).2

  -- The first frame of Subscribe carries the board's value and the last-value flag exactly if the
  -- variable was ever written; it is thing_unavailable exactly if it was not and the cloud is not
  -- steady, and exactly then the subscription is left pending.
  pub subscribe_first :
      (name client_id : String) (steady : Bool) (r : Registry V)
      → let (evt, id, r') = subscribe name client_id steady r in
        (evt.value ≡ (if has_value name r then (current name r).value else none))
        × (evt.is_last_value ≡ has_value name r)
        × (is_unavailable evt.kind ≡ (not (has_value name r) && not steady))
        × ((r'.subs id).pending ≡ is_unavailable evt.kind)
  subscribe_first name client_id steady r =
      let s = subscribe_sub name client_id steady r in
      rw (s.2, s.1) (unfold first_frame in ground arith)

  subscribe_queue :
      (name client_id : String) (steady : Bool) (r : Registry V)
      → (((subscribed name client_id steady r).subs r.next_sub).queue ≡ [])
        × (((subscribed name client_id steady r).subs r.next_sub).client_id ≡ client_id)
        × (((subscribed name client_id steady r).subs r.next_sub).pending
            ≡ (not (has_value name r) && not steady))
        × (mem r.next_sub (listening name (subscribed name client_id steady r)) ≡ true)
  unfolding new_subscription first_frame
  subscribe_queue name client_id steady r =
      let s = subscribe_sub name client_id steady r in
      let at : (subscribed name client_id steady r).subs r.next_sub
          ≡ record (new_subscription client_id) {
            pending = (first_frame (current name r) name steady).1;
          } =
        rw s.0 at s.1 in
      (rw at, rw at, rw at (ground arith), rw s.0 at s.3)

  -- After Subscribe on a well-formed registry, any series of SetValue calls leaves in the new
  -- subscription's queue exactly the updates of its variable that do not come from the subscriber's
  -- own non-empty client id, in the order of the calls: none is missed between the first frame and
  -- the first update.
  pub subscribe-run_writes :
      (owner : ℕ → String) (name client_id : String) (steady : Bool) (r : Registry V)
      (ws : List (Write V))
      → IsWellformed owner r
      → ((run_writes ws (subscribed name client_id steady r)).subs r.next_sub).queue
        ≡ map event_of (select (reaches name client_id) ws)
  subscribe-run_writes owner name client_id steady r ws w =
      let q = subscribe_queue name client_id steady r in
      run_writes_queue (update owner r.next_sub name) ws (subscribed name client_id steady r) name
        r.next_sub q.3 (subscribe-IsWellformed owner name client_id steady r w)
      ∙ (rw (q.0, q.1))

  -- A subscription opened on a well-formed registry just before ApplyLastValues is sent the
  -- announcements of its variable, or exactly one lastvalue_missing frame if the payload does not
  -- name it and its first frame was thing_unavailable, and nothing otherwise.
  pub subscribe-apply_last_values :
      (owner : ℕ → String) (name client_id : String) (steady : Bool) (r : Registry V) (now : ℕ)
      (vs : List (Variable V))
      → IsWellformed owner r
      → ((apply_last_values now vs (subscribed name client_id steady r)).subs r.next_sub).queue
        ≡ answer name now vs (not (has_value name r) && not steady)
  subscribe-apply_last_values owner name client_id steady r now vs w =
      let q = subscribe_queue name client_id steady r in
      (apply_last_values_verdict (update owner r.next_sub name) now vs
        (subscribed name client_id steady r) name r.next_sub
        (subscribe-IsWellformed owner name client_id steady r w) q.3).0
      ∙ (rw (q.0, q.2))

  pub unsubscribed_out :
      (owner : ℕ → String) (name : String) (id : ℕ) (r : Registry V) (k : String)
      → owner id ≡ name
      → IsWellformed owner r
      → mem id (listening k (unsubscribe name id r)) ≡ false
  unfolding unsubscribe
  unsubscribed_out owner name id r k is_name w = elim (Option-cases (lookup name r.listeners)) [
    | inl e ↦ rw (e, unsubscribe) (ground (arith, eq_iff name k, w.listed.owned k id))
    | inr (ids, e) ↦
        rw (e, unsubscribe, ids_at-insert k name)
          (ground (
            arith,
            eq_iff name k,
            w.listed.owned k id,
            not-mem-remove_id id ids (rw e at (w.listed.distinct name)),
          ))
  ]

  -- On a well-formed registry, after Unsubscribe of a subscription under the name that it was
  -- opened with, its pump is told to stop and no later SetValue touches it.
  pub unsubscribe-run_writes :
      (owner : ℕ → String) (name : String) (id : ℕ) (r : Registry V) (ws : List (Write V))
      → owner id ≡ name
      → IsWellformed owner r
      → ((run_writes ws (unsubscribe name id r)).subs id ≡ stop (r.subs id))
        × (((run_writes ws (unsubscribe name id r)).subs id).closed ≡ true)
  unsubscribe-run_writes owner name id r ws is_name w =
      let same : (run_writes ws (unsubscribe name id r)).subs id ≡ stop (r.subs id) =
        run_writes_stranger owner ws (unsubscribe name id r) id
          (λ k. unsubscribed_out owner name id r k is_name w)
          (unsubscribe-IsWellformed owner name id r w)
        ∙ (unfold unsubscribe in ground arith) in
      (same, rw same (unfold stop in ground arith))
