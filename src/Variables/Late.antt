-- ===== src/Variables/Late.antt =====
-- A subscriber whose CloudSteady was read before the last values were applied, and whose Subscribe runs
-- after.
use arduino_cloud_connector.Common.{
  ℕ, ◌≡◌, refl, String, true, false, none, List, arith, map, select, ◌∙◌,
}
use arduino_cloud_connector.Variables.{Variable, Registry, subscribe, apply_last_values, get}
use arduino_cloud_connector.Variables.Wellformed.{IsWellformed, apply_last_values-IsWellformed}
use arduino_cloud_connector.Variables.SetValue.{Write, run_writes, reaches, event_of}
use arduino_cloud_connector.Variables.Subscribe.{
  is_unavailable, has_value, subscribe_first, subscribed, subscribe-run_writes,
}
use arduino_cloud_connector.Variables.Board.{last_announced, get-apply_last_values}

module _ {V : Type 0} where
  has_value_missing :
      (name : String) (r : Registry V) → get name r ≡ none → has_value name r ≡ false
  unfolding get
  has_value_missing name r e = ground arith

  -- On a well-formed registry, a subscriber whose CloudSteady was read as false but whose Subscribe
  -- runs after ApplyLastValues, for a variable that neither the board nor the payload has, is told
  -- thing_unavailable and left pending, and no series of SetValue calls gives it a verdict: it is
  -- sent the updates that reach it and nothing else.
  pub late_subscribe_waits :
      (owner : ℕ → String) (name client_id : String) (r : Registry V) (now : ℕ)
      (vs : List (Variable V)) (ws : List (Write V))
      → IsWellformed owner r
      → last_announced name now vs (get name r) ≡ none
      → let r' = apply_last_values now vs r in
        let (evt, id, r'') = subscribe name client_id false r' in
        (is_unavailable evt.kind ≡ true)
        × ((r''.subs id).pending ≡ true)
        × (((run_writes ws (subscribed name client_id false r')).subs r'.next_sub).queue
            ≡ map event_of (select (reaches name client_id) ws))
  late_subscribe_waits owner name client_id r now vs ws w e =
      let r' = apply_last_values now vs r in
      let first = subscribe_first name client_id false r' in
      let none_yet = has_value_missing name r' (get-apply_last_values owner now vs r name w ∙ e) in
      let kind = first.2 ∙ (rw none_yet refl) in
      (
        kind,
        first.3 ∙ kind,
        subscribe-run_writes owner name client_id false r' ws
            (apply_last_values-IsWellformed owner now vs r w),
      )
