-- ===== src/Mqtt/Calls.antt =====
-- client_paho.go: the calls that wait for an acknowledgement of the broker, and their callbacks. What the
-- wait of at most ten seconds comes to is an input; command.Encode and command.Decode are
-- parameters.
use arduino_cloud_connector.Common.{ℕ, String, Option, none, some, List, ◌∷◌}
use arduino_cloud_connector.Command.{Cmd}
use arduino_cloud_connector.Mqtt.{
  PahoClient, Packet, subscribe_packet, unsubscribe_packet, publish_packet, Error, not_connected,
  ack_timeout, broker_error, encode_command, command_down_topic, command_up_topic,
  property_in_topic, property_out_topic, notify_connection_lost,
}

-- token.WaitTimeout and then token.Error.
pub data Ack : Type 0 where
  timed_out failed acked : Ack

abbrev pub ack_error : Ack → Option Error
ack_error timed_out = some ack_timeout
ack_error failed = some broker_error
ack_error acked = none

abbrev pub send_packet : ℕ → Packet → PahoClient → PahoClient
send_packet id p c = record c { sent = (id, p) ∷ c.sent }

-- Without a client the call fails and sends nothing.
abbrev pub call_on : Option ℕ → Packet → Ack → PahoClient → Option Error × PahoClient
call_on none p ack c = (some not_connected, c)
call_on (some id) p ack c = (ack_error ack, send_packet id p c)

unfoldable pub subscribe_command_channel : String → Ack → PahoClient → Option Error × PahoClient
subscribe_command_channel device_id ack c =
    call_on c.client (subscribe_packet (command_down_topic device_id)) ack c

unfoldable pub subscribe_property_topic : String → Ack → PahoClient → Option Error × PahoClient
subscribe_property_topic thing_id ack c =
    call_on c.client (subscribe_packet (property_in_topic thing_id)) ack c

-- A timeout is no error here.
abbrev pub unsubscribe_error : Ack → Option Error
unsubscribe_error timed_out = none
unsubscribe_error failed = some broker_error
unsubscribe_error acked = none

abbrev pub unsubscribe_on : Option ℕ → String → Ack → PahoClient → Option Error × PahoClient
unsubscribe_on none thing_id ack c = (none, c)
unsubscribe_on (some id) thing_id ack c =
    (unsubscribe_error ack, send_packet id (unsubscribe_packet (property_in_topic thing_id)) c)

unfoldable pub unsubscribe_property_topic : String → Ack → PahoClient → Option Error × PahoClient
unsubscribe_property_topic thing_id ack c = unsubscribe_on c.client thing_id ack c

abbrev pub publish_command_on :
    Option ℕ → String → Option (List ℕ) → Ack → PahoClient → Option Error × PahoClient
publish_command_on none device_id payload ack c = (some not_connected, c)
publish_command_on (some id) device_id none ack c = (some encode_command, c)
publish_command_on (some id) device_id (some payload) ack c =
    (ack_error ack, send_packet id (publish_packet (command_up_topic device_id) payload) c)

unfoldable pub publish_command :
    (Cmd → Option (List ℕ)) → String → Cmd → Ack → PahoClient → Option Error × PahoClient
publish_command encode device_id cmd ack c =
    publish_command_on c.client device_id (encode cmd) ack c

-- A timeout also tells the connection-lost handler.
abbrev pub after_publish : Ack → PahoClient → PahoClient
after_publish timed_out c = notify_connection_lost c
after_publish failed c = c
after_publish acked c = c

abbrev pub publish_property_on :
    Option ℕ → String → List ℕ → Ack → PahoClient → Option Error × PahoClient
publish_property_on none thing_id payload ack c = (some not_connected, c)
publish_property_on (some id) thing_id payload ack c = (
  ack_error ack,
  after_publish ack (send_packet id (publish_packet (property_out_topic thing_id) payload) c),
)

unfoldable pub publish_property : String → List ℕ → Ack → PahoClient → Option Error × PahoClient
publish_property thing_id payload ack c = publish_property_on c.client thing_id payload ack c

-- What the callback of the command channel hands on of a message: a command that it can decode.
abbrev pub on_command : (List ℕ → Option Cmd) → List ℕ → List Cmd → List Cmd
on_command decode payload handed = hand_on (decode payload) handed
  where
    hand_on : Option Cmd → List Cmd → List Cmd
    hand_on none cs = cs
    hand_on (some cmd) cs = cmd ∷ cs
