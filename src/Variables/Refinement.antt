-- ===== src/Variables/Refinement.antt =====
-- The registry as an abstract table: the value and the time of each name, with nothing of the
-- representation, the listeners or the queues.
use arduino_cloud_connector.Common.{
  ℕ, ◌≡◌, refl, ◌∙◌, sym, ap, true, String, Bool, Option, none, some, List, [], ◌∷◌, str_eq, eq_iff,
  if◌then◌else◌, arith, Bool-cases, Option-cases, inl, inr,
}
use arduino_cloud_connector.Common.Dict.{Dict, lookup, insert}
use arduino_cloud_connector.Variables.{
  Variable, Registry, new_registry, set_value, apply_last_values, announce, announce_all, subscribe,
  unsubscribe, store_value, get_or_create, default_time, UpdateEvent, first_frame,
}
use arduino_cloud_connector.Variables.Storage.{
  IsNamed, current, lookup-get_or_create, lookup-store_value, get_or_create-current,
}
use arduino_cloud_connector.Variables.Wellformed.{
  IsWellformed, new_registry-IsWellformed, announce-IsWellformed,
}
use arduino_cloud_connector.Variables.Operations.{
  Operation, setting, applying, subscribing, unsubscribing, operate, operate_all,
  operate-IsWellformed, owners,
}

-- A value with its time, which is 0 for a name that was never written.
abbrev pub Table : Type 0 → Type 0
Table V = String → Option V × ℕ

module _ {V : Type 0} where
  abbrev pub blank_table : Table V
  blank_table k = (none, 0)

  abbrev pub entry_of : Option (Variable V) → Option V × ℕ
  entry_of none = (none, 0)
  entry_of (some v) = (v.value, v.timestamp)

  abbrev pub view : Registry V → Table V
  view r k = entry_of (lookup k r.vars)

  view-current :
      (r : Registry V) (k : String) → view r k ≡ ((current k r).value, (current k r).timestamp)
  view-current r k = elim (Option-cases (lookup k r.vars)) [
    | inl e ↦ rw e (ground arith)
    | inr (v, e) ↦ rw e (ground arith)
  ]

  abbrev pub write : String → Option V → ℕ → Table V → Table V
  write name value ts t k = if str_eq name k then (value, ts) else t k

  -- The announced values, in the order of the payload.
  pub write_all : ℕ → List (Variable V) → Table V → Table V
  write_all now [] t = t
  write_all now (v ∷ vs) t =
      write_all now vs (write v.name v.value (default_time v.timestamp now) t)

  -- What each call does to the table.
  abbrev pub replay_one : Operation V → Table V → Table V
  replay_one (setting now name value ts origin) t = write name value (default_time ts now) t
  replay_one (applying now values) t = write_all now values t
  replay_one (subscribing name client_id steady) t = t
  replay_one (unsubscribing name id) t = t

  pub replay : List (Operation V) → Table V → Table V
  replay [] t = t
  replay (o ∷ os) t = replay os (replay_one o t)

  view-store_value :
      (r : Registry V) (name : String) (value : Option V) (ts : ℕ) (k : String)
      → IsNamed r
      → view (store_value name value ts r) k ≡ write name value ts (view r) k
  view-store_value r name value ts k named = elim (Bool-cases (str_eq name k)) [
    | inl same ↦ rw (lookup-store_value name k value ts r named, same) refl
    | inr other ↦ rw (lookup-store_value name k value ts r named, other) refl
  ]

  view-set_value :
      (r : Registry V) (now : ℕ) (name : String) (value : Option V) (ts : ℕ) (origin k : String)
      → IsNamed r
      → view (set_value now name value ts origin r) k
        ≡ write name value (default_time ts now) (view r) k
  unfolding set_value
  view-set_value r now name value ts origin k named =
      view-store_value r name value (default_time ts now) k named

  view-announce :
      (r : Registry V) (now : ℕ) (v : Variable V) (k : String)
      → IsNamed r
      → view (announce now v r) k ≡ write v.name v.value (default_time v.timestamp now) (view r) k
  unfolding announce
  view-announce r now v k named =
      view-store_value r v.name v.value (default_time v.timestamp now) k named

  -- Tables that agree everywhere.
  abbrev Agree : Table V → Table V → Type 0
  Agree t t' = (k : String) → t k ≡ t' k

  write-Agree :
      (name : String) (value : Option V) (ts : ℕ) (t t' : Table V)
      → Agree t t'
      → Agree (write name value ts t) (write name value ts t')
  write-Agree name value ts t t' a k = rw (a k) refl

  write_all-Agree :
      (now : ℕ) (vs : List (Variable V)) (t t' : Table V)
      → Agree t t'
      → Agree (write_all now vs t) (write_all now vs t')
  unfolding write_all
  write_all-Agree now [] t t' a = a
  write_all-Agree now (v ∷ vs) t t' a =
      write_all-Agree now vs _ _ (write-Agree v.name v.value (default_time v.timestamp now) t t' a)

  view-announce_all :
      (owner : ℕ → String) (now : ℕ) (vs : List (Variable V)) (announced : Dict Bool)
      (r : Registry V)
      → IsWellformed owner r
      → Agree (view (announce_all now vs announced r).1) (write_all now vs (view r))
  unfolding announce_all write_all
  view-announce_all owner now [] announced r w k = refl
  view-announce_all owner now (v ∷ vs) announced r w k =
      view-announce_all owner now vs (insert v.name true announced) (announce now v r)
        (announce-IsWellformed owner now v r w) k
      ∙ write_all-Agree now vs _ _ (λ n. view-announce r now v n w.named) k

  view-get_or_create :
      (name k : String) (r : Registry V) → view (get_or_create name r).1 k ≡ view r k
  view-get_or_create name k r = elim (Bool-cases (str_eq name k)) [
    | inl same ↦
        rw (lookup-get_or_create name k r, same)
          (sym (view-current r name)
            ∙ ap (λ (n : String). view r n) (ground (arith, eq_iff name k)))
    | inr other ↦ rw (lookup-get_or_create name k r, other) refl
  ]

  view-operate :
      (owner : ℕ → String) (o : Operation V) (r : Registry V)
      → IsWellformed owner r
      → Agree (view (operate o r)) (replay_one o (view r))
  unfolding apply_last_values subscribe unsubscribe
  view-operate owner (setting now name value ts origin) r w k =
      view-set_value r now name value ts origin k w.named
  view-operate owner (applying now values) r w k = view-announce_all owner now values [] r w k
  view-operate owner (subscribing name client_id steady) r w k = view-get_or_create name k r
  view-operate owner (unsubscribing name id) r w k = refl

  replay_one-Agree :
      (o : Operation V) (t t' : Table V) → Agree t t' → Agree (replay_one o t) (replay_one o t')
  replay_one-Agree (setting now name value ts origin) t t' a =
      write-Agree name value (default_time ts now) t t' a
  replay_one-Agree (applying now values) t t' a = write_all-Agree now values t t' a
  replay_one-Agree (subscribing name client_id steady) t t' a = a
  replay_one-Agree (unsubscribing name id) t t' a = a

  replay-Agree :
      (os : List (Operation V)) (t t' : Table V) → Agree t t' → Agree (replay os t) (replay os t')
  unfolding replay
  replay-Agree [] t t' a = a
  replay-Agree (o ∷ os) t t' a = replay-Agree os _ _ (replay_one-Agree o t t' a)

  view-operate_all :
      (owner : ℕ → String) (os : List (Operation V)) (r : Registry V)
      → IsWellformed owner r
      → Agree (view (operate_all os r)) (replay os (view r))
  unfolding operate_all replay
  view-operate_all owner [] r w k = refl
  view-operate_all owner (o ∷ os) r w k =
      view-operate_all (owners o r owner) os (operate o r) (operate-IsWellformed owner o r w) k
      ∙ replay-Agree os _ _ (view-operate owner o r w) k

  -- The frame that a subscriber is given first, from the table.
  abbrev pub frame_of : String → Bool → Option V × ℕ → UpdateEvent V
  frame_of name steady entry =
      (first_frame (record { name = name; value = entry.0; timestamp = entry.1 }) name steady).0

  subscribe-frame_of :
      (name client_id : String) (steady : Bool) (r : Registry V)
      → (subscribe name client_id steady r).0 ≡ frame_of name steady (view r name)
  unfolding subscribe first_frame
  subscribe-frame_of name client_id steady r =
      rw (get_or_create-current name r, view-current r name) (ground arith)

  view-new : Agree (view new_registry) blank_table
  unfolding new_registry lookup
  view-new k = refl

  -- After any series of SetValue, ApplyLastValues, Subscribe and Unsubscribe calls on a new
  -- registry, it stands for the table that a replay of the calls makes, in which SetValue writes
  -- its value with its time or the present, ApplyLastValues writes the announced values in their
  -- order, and Subscribe and Unsubscribe change nothing; and the first frame that a Subscribe then
  -- returns depends on the table's entry and on whether the cloud is steady alone.
  pub registry-refines :
      (os : List (Operation V)) (name client_id : String) (steady : Bool)
      → let r = operate_all os new_registry in
        let t = replay os blank_table in
        ((k : String) → view r k ≡ t k)
        × ((subscribe name client_id steady r).0 ≡ frame_of name steady (t name))
  registry-refines os name client_id steady =
      let r = operate_all os (new_registry {V = V}) in
      let same = λ (k : String).
        view-operate_all (λ _. "") os new_registry (new_registry-IsWellformed (λ _. "")) k
        ∙ replay-Agree os _ _ view-new k in
      (
        same,
        subscribe-frame_of name client_id steady r
            ∙ ap (λ (entry : Option V × ℕ). frame_of name steady entry) (same name),
      )
