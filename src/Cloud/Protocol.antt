-- ===== src/Cloud/Protocol.antt =====
-- What the log of client calls says of the connection, and the order in which the handshake must go.
-- A log stands newest first. Unsubscribing counts as done: the FSM ignores its error.
use arduino_cloud_connector.Common.{
  String, Bool, true, false, not, ◌&&◌, List, [], ◌∷◌, str_eq, if◌then◌else◌,
}
use arduino_cloud_connector.Command.{
  Cmd, device_begin, device_net_config, thing_begin, last_values_begin,
}
use arduino_cloud_connector.Cloud.{
  Call, connect, disconnect, subscribe_command_channel, subscribe_property_topic,
  unsubscribe_property_topic, publish_command, publish_property, Log,
}

-- Connected, as far as the calls tell.
abbrev pub is_connected : Log → Bool
is_connected [] = false
is_connected ((connect, failed) ∷ l) = not failed
is_connected ((disconnect, failed) ∷ l) = false
is_connected ((c, failed) ∷ l) = is_connected l

-- The command channel was subscribed in this connection.
abbrev pub hears_commands : Log → Bool
hears_commands [] = false
hears_commands ((connect, failed) ∷ l) = false
hears_commands ((disconnect, failed) ∷ l) = false
hears_commands ((subscribe_command_channel device, false) ∷ l) = is_connected l
hears_commands ((c, failed) ∷ l) = hears_commands l

-- Device.begin was published in this connection, after the command channel was subscribed.
abbrev pub is_announced : Log → Bool
is_announced [] = false
is_announced ((connect, failed) ∷ l) = false
is_announced ((disconnect, failed) ∷ l) = false
is_announced ((publish_command device (device_begin version), false) ∷ l) = hears_commands l
is_announced ((c, failed) ∷ l) = is_announced l

abbrev pub remove_topic : String → List String → List String
remove_topic t [] = []
remove_topic t (u ∷ us) = if str_eq u t then remove_topic t us else u ∷ remove_topic t us

-- The things whose property topic is subscribed in this connection.
abbrev pub open_topics : Log → List String
open_topics [] = []
open_topics ((connect, failed) ∷ l) = []
open_topics ((disconnect, failed) ∷ l) = []
open_topics ((subscribe_property_topic t, false) ∷ l) = t ∷ open_topics l
open_topics ((unsubscribe_property_topic t, failed) ∷ l) = remove_topic t (open_topics l)
open_topics ((c, failed) ∷ l) = open_topics l

abbrev pub is_nil : List String → Bool
is_nil [] = true
is_nil (_ ∷ _) = false

-- The calls that the handshake allows after the calls of `l`: the command channel on a connection,
-- Device.begin once commands are heard, the network report and Thing.begin once the device is
-- announced, one property topic at a time and for a real thing, LastValues.begin on an open topic.
abbrev pub is_allowed_command : Cmd → Log → Bool
is_allowed_command (device_begin version) l = hears_commands l
is_allowed_command (device_net_config net_cfg) l = is_announced l
is_allowed_command (thing_begin id) l = is_announced l && is_nil (open_topics l)
is_allowed_command last_values_begin l = is_announced l && not (is_nil (open_topics l))
is_allowed_command _ l = false

abbrev pub is_allowed : Call → Log → Bool
is_allowed (subscribe_command_channel device) l = is_connected l
is_allowed (publish_command device cmd) l = is_allowed_command cmd l
is_allowed (subscribe_property_topic t) l =
    is_announced l && is_nil (open_topics l) && not (str_eq t "")
is_allowed (publish_property t payload) l = false
is_allowed _ l = true

abbrev pub is_protocol : Log → Bool
is_protocol [] = true
is_protocol ((c, failed) ∷ l) = is_allowed c l && is_protocol l
