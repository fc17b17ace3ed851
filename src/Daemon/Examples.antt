-- ===== src/Daemon/Examples.antt =====
-- The theorems on the daemon at a board with an empty disk and at two concurrent writes.
use arduino_cloud_connector.Common.{
  ℕ, ◌≡◌, refl, true, false, none, some, [], ◌∷◌, arith, if◌then◌else◌,
}
use arduino_cloud_connector.Common.Dict.{lookup, insert}
use arduino_cloud_connector.Keystore.{is_provisioned}
use arduino_cloud_connector.Keystore.Disk.{text, Fs}
use arduino_cloud_connector.Provisioning.{Env, Service, state, marker_timestamp}
use arduino_cloud_connector.Variables.{
  Registry, new_registry, set_value, store_value, get_or_create, get,
}
use arduino_cloud_connector.Variables.Text.{has_prefix}
use arduino_cloud_connector.Variables.Wellformed.{
  IsWellformed, new_registry-IsWellformed, set_value-IsWellformed,
}
use arduino_cloud_connector.Daemon.{
  new, step, steps, probe, command, cancelled, pick_post_internet_state, run_run, attach_cloud,
  transition,
}
use arduino_cloud_connector.Daemon.Invariant.{IsSound, reachable-IsSound}
use arduino_cloud_connector.Daemon.Restart.{step_enters-Activated, Activated}
use arduino_cloud_connector.Daemon.Packet.{property_packet, attribute_prefix}
use arduino_cloud_connector.Daemon.Packet.Siblings.{property_packet-set_value}
use arduino_cloud_connector.Daemon.Outbound.{
  OutboundValue, Outbound, new_outbound, enqueue_variable, look, take, push, enqueuing, sending,
  looking, taking, Reach, here, next,
}
use arduino_cloud_connector.Daemon.Order.{InOrder, InTime, delivered-InOrder}
use arduino_cloud_connector.Daemon.Lossless.{places, values_in_one_place}

abbrev healthy : Fs
healthy c = false

abbrev at : ℕ → Env
at now = record {
  fs = healthy;
  crypto = record { new_key = none; parse_key = λ c. none; sign_csr = λ key uhwid. none };
  sign_token = λ key. none;
  uhwid = "uhwid";
  now = now;
}

abbrev blank : Service
blank = record { files = λ name. none; complete_failed = none }

abbrev provisioned_board : Service
provisioned_board = record {
  files = λ name. some (record { content = text "x"; mode = 0o600 });
  complete_failed = none;
}

abbrev board : Service
board = record {
  files = λ name.
      if has_prefix "device" name then some (record { content = text "x"; mode = 0o600 }) else none;
  complete_failed = none;
}

reachable-IsSound_example :
    IsSound (steps (probe (at 1) true false ∷ command (at 2) "org" ∷ cancelled ∷ []) (new board))
reachable-IsSound_example =
    reachable-IsSound board (probe (at 1) true false ∷ command (at 2) "org" ∷ cancelled ∷ [])

step_enters-Activated_example : Activated (probe (at 9) true false) board
unfolding new step pick_post_internet_state state marker_timestamp is_provisioned run_run
    attach_cloud transition has_prefix
step_enters-Activated_example =
    step_enters-Activated (probe (at 9) true false) (new board) (λ e. cc) refl

-- An app has set one attribute of a property, and sets another.
abbrev reg : Registry ℕ
reg = set_value 5 "light:hue" (some 7) 0 "app1" new_registry

reg-IsWellformed : IsWellformed (λ id. "") reg
reg-IsWellformed =
    set_value-IsWellformed (λ id. "") 5 "light:hue" (some 7) 0 "app1" new_registry
      (new_registry-IsWellformed (λ id. ""))

property_packet-set_value_example :
    lookup "light:hue"
      (property_packet {V = ℕ} "light:swi" (some 1) (set_value 6 "light:swi" (some 1) 6 "" reg))
    ≡ some (some 7)
unfolding attribute_prefix has_prefix set_value store_value get_or_create lookup insert get
    new_registry
property_packet-set_value_example =
    property_packet-set_value {V = ℕ} (λ id. "") 6 "light:swi" "light:" "" (some 1) 6 reg
      "light:hue" reg-IsWellformed refl (λ e. ground arith)

-- One value is stamped, sent, taken and delivered.
abbrev o0 : Outbound ℕ
o0 = new_outbound new_registry

abbrev o1 : Outbound ℕ
o1 = (enqueue_variable true 10 "temp" (some 3) "app1" o0).1

abbrev sent : OutboundValue ℕ
sent = record { name = "temp"; value = some 3; ts = 10; seq = 1; client_id = "app1" }

abbrev o2 : Outbound ℕ
o2 = record o1 { submitting = []; queue = sent ∷ [] }

abbrev o3 : Outbound ℕ
o3 = take sent [] o2

abbrev o4 : Outbound ℕ
o4 = look 40_000_000 false none o3

o4-Reach : Reach InTime o0 o4
unfolding enqueue_variable take push
o4-Reach =
    next o0 o3 o4
      (next o0 o2 o3
        (next o0 o1 o2 (next o0 o0 o1 (here o0) (enqueuing o0 true 10 "temp" (some 3) "app1"))
          (sending o1 [] [] sent refl (omega arith)))
        (taking o2 sent [] refl refl (omega arith)))
      (looking o3 40_000_000 false none (omega arith))

delivered-InOrder_example : InOrder o4.delivered
delivered-InOrder_example = delivered-InOrder new_registry o4 o4-Reach

values_in_one_place_example : places 1 o4 ≡ 1
unfolding enqueue_variable take look push
values_in_one_place_example = values_in_one_place {timely = InTime} new_registry o4 1 o4-Reach
