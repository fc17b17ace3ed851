-- ===== src/Variables/Examples.antt =====
-- The theorems on the registry at two apps that follow a temperature.
use arduino_cloud_connector.Common.{
  ℕ, ◌≡◌, refl, String, true, false, some, List, [], ◌∷◌, ◌++◌, mem, map, select, update,
}
use arduino_cloud_connector.Common.Dict.{lookup, insert}
use arduino_cloud_connector.Variables.{
  Variable, UpdateEvent, Registry, new_registry, subscribe, apply_last_values, get, listening,
  get_or_create, first_frame, new_subscription, update_event, append_event, pump_look,
}
use arduino_cloud_connector.Variables.Wellformed.{
  IsWellformed, new_registry-IsWellformed, subscribe-IsWellformed,
}
use arduino_cloud_connector.Variables.SetValue.{Write, run_writes, event_of, reaches}
use arduino_cloud_connector.Variables.Verdict.{answer, apply_last_values_verdict}
use arduino_cloud_connector.Variables.Operations.{
  Operation, setting, applying, subscribing, unsubscribing, operate_all,
}
use arduino_cloud_connector.Variables.Refinement.{
  view, replay, blank_table, frame_of, registry-refines,
}
use arduino_cloud_connector.Variables.Late.{late_subscribe_waits}
use arduino_cloud_connector.Variables.Subscribe.{is_unavailable, subscribed, subscribe-run_writes}
use arduino_cloud_connector.Variables.Delivery.{Channel, Reach, here, next, append, look, opened}
use arduino_cloud_connector.Variables.Progress.{Delivers, undelivered_progress}

abbrev owner : ℕ → String
owner _ = "temp"

abbrev fresh : Registry ℕ
fresh = new_registry

-- One app waits for the temperature while no thing is assigned.
abbrev waiting_app : Registry ℕ
waiting_app = subscribed "temp" "app1" false fresh

fresh-IsWellformed : IsWellformed owner fresh
fresh-IsWellformed = new_registry-IsWellformed owner

abbrev owner1 : ℕ → String
owner1 = update owner fresh.next_sub "temp"

waiting_app-IsWellformed : IsWellformed owner1 waiting_app
waiting_app-IsWellformed = subscribe-IsWellformed owner "temp" "app1" false fresh fresh-IsWellformed

waiting_app_listed : mem 0 (listening "temp" waiting_app) ≡ true
unfolding subscribe get_or_create new_registry insert lookup first_frame
waiting_app_listed = refl

abbrev reading : Variable ℕ
reading = record { name = "temp"; value = some 21; timestamp = 50 }

abbrev own_write : Write ℕ
own_write = record { now = 7; name = "temp"; value = some 20; ts = 0; origin = "app1" }

abbrev other_write : Write ℕ
other_write = record { now = 8; name = "temp"; value = some 22; ts = 0; origin = "app2" }

-- The app does not get its own write back.
own_write_left_out :
    select (reaches "temp" "app1") (own_write ∷ other_write ∷ []) ≡ other_write ∷ []
own_write_left_out = refl

apply_last_values_verdict_example :
    (((apply_last_values 9 (reading ∷ []) waiting_app).subs 0).queue
      ≡ (waiting_app.subs 0).queue ++ answer "temp" 9 (reading ∷ []) (waiting_app.subs 0).pending)
    × (((apply_last_values 9 (reading ∷ []) waiting_app).subs 0).pending ≡ false)
apply_last_values_verdict_example =
    apply_last_values_verdict owner1 9 (reading ∷ []) waiting_app "temp" 0 waiting_app-IsWellformed
      waiting_app_listed

subscribe-run_writes_example :
    ((run_writes (own_write ∷ other_write ∷ []) waiting_app).subs fresh.next_sub).queue
    ≡ map event_of (select (reaches "temp" "app1") (own_write ∷ other_write ∷ []))
subscribe-run_writes_example =
    subscribe-run_writes owner "temp" "app1" false fresh (own_write ∷ other_write ∷ [])
      fresh-IsWellformed

late_subscribe_waits_example :
    let r' = apply_last_values 9 [] fresh in
    let (evt, id, r'') = subscribe "temp" "app1" false r' in
    (is_unavailable evt.kind ≡ true)
    × ((r''.subs id).pending ≡ true)
    × (((run_writes (other_write ∷ []) (subscribed "temp" "app1" false r')).subs r'.next_sub).queue
        ≡ map event_of (select (reaches "temp" "app1") (other_write ∷ [])))
unfolding new_registry get lookup
late_subscribe_waits_example =
    late_subscribe_waits owner "temp" "app1" fresh 9 [] (other_write ∷ []) fresh-IsWellformed refl

abbrev an_event : UpdateEvent ℕ
an_event = update_event "temp" (some 20) 7

abbrev appended : Channel ℕ
appended = record {
  sub = append_event an_event (new_subscription "app1");
  signalling = true;
  sent = an_event ∷ [];
  received = [];
}

appended-Reach : Reach (opened "app1") appended
appended-Reach = next here (append (opened "app1") an_event refl)

-- A pump that found its queue empty sleeps.
abbrev asleep : Channel ℕ
asleep = record {
  sub = pump_look (new_subscription "app1");
  signalling = false;
  sent = [];
  received = [];
}

asleep-Reach : Reach (opened "app1") asleep
unfolding new_subscription
asleep-Reach = next here (look (opened "app1") refl)

undelivered_progress_example : Delivers appended
unfolding new_subscription
undelivered_progress_example = undelivered_progress "app1" appended-Reach (λ e. cc) refl

abbrev board_calls : List (Operation ℕ)
board_calls =
    subscribing "temp" "app1" false
    ∷ setting 7 "temp" (some 20) 0 "app2"
    ∷ applying 9 (record { name = "light"; value = some 1; timestamp = 0 } ∷ [])
    ∷ unsubscribing "temp" 0
    ∷ []

registry-refines_example :
    let r = operate_all board_calls new_registry in
    let t = replay board_calls blank_table in
    ((k : String) → view r k ≡ t k)
    × ((subscribe "light" "app1" true r).0 ≡ frame_of "light" true (t "light"))
registry-refines_example = registry-refines board_calls "light" "app1" true
