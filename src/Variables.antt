-- ===== src/Variables.antt =====
-- internal/variables/variables.go: the registry of cloud variables and its subscriptions.
-- A method that mutates the registry returns the new one. Subscriptions are shared objects, so they
-- stand in a store and the listener lists hold their identities. `any` is `Option V`: nil is `none`.
-- Times count from Go's zero time, which is 0.
mod Queue
pub mod Text
pub mod Storage
pub mod Listeners
pub mod Wellformed
pub mod SetValue
pub mod LastValues
pub mod Verdict
pub mod Board
pub mod Operations
pub mod Ownership
pub mod Refinement
pub mod Subscribe
pub mod Late
pub mod Prefix
pub mod Delivery
pub mod Progress
mod Examples
use arduino_cloud_connector.Common.{
  ℕ, ◌+◌, String, Bool, true, false, not, ◌&&◌, Option, none, some, List, [], ◌∷◌, ◌++◌, str_eq,
  ◌==◌, if◌then◌else◌, update, for_each, select,
}
use arduino_cloud_connector.Common.Dict.{Dict, lookup, insert, or_zero}
unfoldable pub use Queue.*
use Text.{has_prefix, text_leb}

pub record Variable (V : Type 0) : Type 0 where
  pub name : String
  pub value : Option V
  pub timestamp : ℕ

pub record Registry (V : Type 0) : Type 0 where
  pub vars : Dict (Variable V)
  pub listeners : Dict (List ℕ)
  pub subs : ℕ → Subscription V
  pub next_sub : ℕ

-- s == sub on pointers, removing the first match: append(list[:i], list[i+1:]...)
unfoldable pub remove_id : ℕ → List ℕ → List ℕ
remove_id i [] = []
remove_id i (j ∷ js) = if j == i then js else j ∷ remove_id i js

abbrev pub default_time : ℕ → ℕ → ℕ
default_time ts now = if ts == 0 then now else ts

abbrev pub is_announced : Dict Bool → String → Bool
is_announced announced name = or_zero false (lookup name announced)

module _ {V : Type 0} where
  unfoldable pub new_registry : Registry V
  new_registry = record { vars = []; listeners = []; subs = λ _. new_subscription ""; next_sub = 0 }

  -- r.listeners[name]: a missing key reads as the empty list.
  abbrev pub listening : String → Registry V → List ℕ
  listening name r = or_zero [] (lookup name r.listeners)

  abbrev pub empty_variable : String → Variable V
  empty_variable name = record { name = name; value = none; timestamp = 0 }

  unfoldable pub get_or_create : String → Registry V → Variable V × Registry V
  get_or_create name r = elim (lookup name r.vars) [
    | none ↦ (empty_variable name, record r { vars = insert name (empty_variable name) r.vars })
    | some v ↦ (v, r)
  ]

  -- `none` is the error "variable not found".
  unfoldable pub get : String → Registry V → Option (Variable V)
  get name r = lookup name r.vars

  -- sort.Slice by name; the names are pairwise different, so every sort gives this list.
  unfoldable pub insert_sorted : Variable V → List (Variable V) → List (Variable V)
  insert_sorted v [] = v ∷ []
  insert_sorted v (w ∷ ws) = if text_leb v.name w.name then v ∷ w ∷ ws else w ∷ insert_sorted v ws

  unfoldable pub sort_by_name : List (Variable V) → List (Variable V)
  sort_by_name [] = []
  sort_by_name (v ∷ vs) = insert_sorted v (sort_by_name vs)

  unfoldable pub matching : String → Dict (Variable V) → List (Variable V)
  matching prefix [] = []
  matching prefix ((name, v) ∷ m) =
      if has_prefix prefix name && not (v.timestamp == 0)
      then v ∷ matching prefix m
      else matching prefix m

  unfoldable pub with_prefix : String → Registry V → List (Variable V)
  with_prefix prefix r = sort_by_name (matching prefix r.vars)

  -- The origin exclusion of SetValue.
  unfoldable pub is_excluded : String → Subscription V → Bool
  is_excluded origin s = not (str_eq origin "") && str_eq s.client_id origin

  abbrev pub update_event : String → Option V → ℕ → UpdateEvent V
  update_event name value ts = record {
    name = name;
    value = value;
    timestamp = ts;
    is_last_value = false;
    kind = changed;
  }

  abbrev pub last_value_event : String → Option V → ℕ → UpdateEvent V
  last_value_event name value ts = record {
    name = name;
    value = value;
    timestamp = ts;
    is_last_value = true;
    kind = last_value;
  }

  -- A frame with no value: Go's zero value in every other field.
  abbrev pub bare_event : String → EventKind → UpdateEvent V
  bare_event name kind = record {
    name = name;
    value = none;
    timestamp = 0;
    is_last_value = false;
    kind = kind;
  }

  abbrev pub deliver_update : UpdateEvent V → String → Subscription V → Subscription V
  deliver_update evt origin s = if is_excluded origin s then s else enqueue evt s

  -- `v.Value = value; v.Timestamp = ts` through the pointer of get_or_create.
  unfoldable pub store_value : String → Option V → ℕ → Registry V → Registry V
  store_value name value ts r =
      let (v, r') = get_or_create name r in
      record r' { vars = insert name (record v { value = value; timestamp = ts }) r'.vars }

  unfoldable pub set_value : ℕ → String → Option V → ℕ → String → Registry V → Registry V
  set_value now name value ts origin r =
      let t = default_time ts now in
      let r' = store_value name value t r in
      record r' {
        subs =
            for_each (deliver_update (update_event name value t) origin) (listening name r')
              r'.subs;
      }

  abbrev pub deliver_last_value : UpdateEvent V → Subscription V → Subscription V
  deliver_last_value evt s = enqueue evt (record s { pending = false })

  abbrev pub deliver_missing : UpdateEvent V → Subscription V → Subscription V
  deliver_missing evt s = if not s.pending then s else enqueue evt (record s { pending = false })

  -- One round of the first loop of ApplyLastValues.
  unfoldable pub announce : ℕ → Variable V → Registry V → Registry V
  announce now v r =
      let t = default_time v.timestamp now in
      let r' = store_value v.name v.value t r in
      record r' {
        subs =
            for_each (deliver_last_value (last_value_event v.name v.value t)) (listening v.name r')
              r'.subs;
      }

  unfoldable pub announce_all :
      ℕ → List (Variable V) → Dict Bool → Registry V → Dict Bool × Registry V
  announce_all now [] announced r = (announced, r)
  announce_all now (v ∷ vs) announced r =
      announce_all now vs (insert v.name true announced) (announce now v r)

  -- The second loop of ApplyLastValues, over the listener lists.
  unfoldable pub resolve_missing :
      Dict Bool → Dict (List ℕ) → (ℕ → Subscription V) → ℕ → Subscription V
  resolve_missing announced [] h = h
  resolve_missing announced ((name, ids) ∷ m) h = resolve_missing announced m (
      if is_announced announced name
      then h
      else for_each (deliver_missing (bare_event name last_value_missing)) ids h)

  unfoldable pub apply_last_values : ℕ → List (Variable V) → Registry V → Registry V
  apply_last_values now values r =
      let (announced, r') = announce_all now values [] r in
      record r' { subs = resolve_missing announced r'.listeners r'.subs }

  -- The frame that Subscribe returns, and whether the subscription is left pending.
  unfoldable pub first_frame : Variable V → String → Bool → UpdateEvent V × Bool
  first_frame v name cloud_steady =
      if not (v.timestamp == 0)
      then (last_value_event name v.value v.timestamp, false)
      else if not cloud_steady
      then (bare_event name thing_unavailable, true)
      else (bare_event name last_value_missing, false)

  unfoldable pub subscribe : String → String → Bool → Registry V → UpdateEvent V × ℕ × Registry V
  subscribe name client_id cloud_steady r =
      let (v, r') = get_or_create name r in
      let id = r'.next_sub in
      let (evt, is_pending) = first_frame v name cloud_steady in
      (
        evt,
        id,
        record r' {
          listeners = insert name (listening name r' ++ id ∷ []) r'.listeners;
          subs = update r'.subs id (record (new_subscription client_id) { pending = is_pending });
          next_sub = id + 1;
        },
      )

  unfoldable pub unsubscribe : String → ℕ → Registry V → Registry V
  unsubscribe name id r =
      let detached : Dict (List ℕ) = elim (lookup name r.listeners) [
        | none ↦ r.listeners
        | some ids ↦ insert name (remove_id id ids) r.listeners
      ] in
      record r { listeners = detached; subs = update r.subs id (stop (r.subs id)) }
