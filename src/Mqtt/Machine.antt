-- ===== src/Mqtt/Machine.antt =====
-- client_paho.go: its calls and the events of the library as steps of a machine.
use arduino_cloud_connector.Common.{ℕ, ◌≢◌, String, Option, List, [], ◌∷◌, update}
use arduino_cloud_connector.Command.{Cmd}
use arduino_cloud_connector.Mqtt.{
  Tls, PahoClient, Phase, dialing, up, down, Dialed, aborted, on_connection_lost,
  notify_connection_lost, disconnect, connect,
}
use arduino_cloud_connector.Mqtt.Calls.{
  Ack, subscribe_command_channel, subscribe_property_topic, unsubscribe_property_topic,
  publish_command, publish_property,
}

-- The calls, and what the library does by itself: it loses a connection, and a client whose Connect was
-- given up comes to a connection or not.
pub data Input (K C P : Type 0) : Type 0 where
  connecting : Tls K C P → String → Option String → Dialed → Input K C P
  disconnecting registering : Input K C P
  lost settled_up settled_down : ℕ → Input K C P
  subscribing_commands subscribing_property unsubscribing_property : String → Ack → Input K C P
  publishing_command : (Cmd → Option (List ℕ)) → String → Cmd → Ack → Input K C P
  publishing_property : String → List ℕ → Ack → Input K C P

-- ConnectionLostHandler, on a connected client.
abbrev pub lose : ℕ → Phase → PahoClient → PahoClient
lose id up c = notify_connection_lost (record c { phases = update c.phases id down })
lose id other c = c

-- The token of a client that was given up while it was dialing.
abbrev pub settle : ℕ → Phase → Phase → PahoClient → PahoClient
settle id to dialing c = record c { phases = update c.phases id to }
settle id to other c = c

module _ {K C P : Type 0} where
  unfoldable pub step : Input K C P → PahoClient → PahoClient
  step (connecting tls ca_file device_id outcome) c = (connect tls ca_file device_id outcome c).1
  step disconnecting c = disconnect c
  step registering c = on_connection_lost c
  step (lost id) c = lose id (c.phases id) c
  step (settled_up id) c = settle id up (c.phases id) c
  step (settled_down id) c = settle id down (c.phases id) c
  step (subscribing_commands device_id ack) c = (subscribe_command_channel device_id ack c).1
  step (subscribing_property thing_id ack) c = (subscribe_property_topic thing_id ack c).1
  step (unsubscribing_property thing_id ack) c = (unsubscribe_property_topic thing_id ack c).1
  step (publishing_command encode device_id cmd ack) c =
      (publish_command encode device_id cmd ack c).1
  step (publishing_property thing_id payload ack) c = (publish_property thing_id payload ack c).1

  unfoldable pub steps : List (Input K C P) → PahoClient → PahoClient
  steps [] c = c
  steps (i ∷ is) c = steps is (step i c)

  -- No Connect of the run is given up while its client dials.
  abbrev pub IsPatient : Input K C P → Type 0
  IsPatient (connecting tls ca_file device_id outcome) = outcome ≢ aborted
  IsPatient other = Unit
