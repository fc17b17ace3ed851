-- ===== src/Wire/Command/Reading.antt =====
-- command.go: DecodeCommand, by the position of the fields.
use arduino_cloud_connector.Common.{
  ℕ, List, [], ◌∷◌, length, ◌||◌, Option, none, some, String, ◌==◌, if◌then◌else◌,
}
use arduino_cloud_connector.Wire.Cbor.{Floats, Value, tag, array, Values, count}
use arduino_cloud_connector.Wire.Decode.{Read, got, failed, panicked, stuck, decode}
use arduino_cloud_connector.Wire.Command.{
  tag_ota_begin, tag_ota_update, tag_ota_progress, tag_thing_begin, tag_thing_update,
  tag_last_values_begin, tag_last_values_update, tag_device_begin, tag_timezone_request,
  tag_timezone_update, tag_thing_detach, tag_device_net_config, FieldValue, string, integer, size,
  Fields, Command, not_cbor, not_tag, not_array, Answer, answer, refused, crashed, endless, ◌>>=◌,
  command_of, network_name, network_field, is_named, string_at, bytes_at, int_at, hex_at,
}

module _ {F : Type 0} where
  -- [type, ssid], [type, ip, dns, gateway, netmask] or [type].
  abbrev pub adapter_fields : Values F → FieldValue → Option String → Answer Fields
  adapter_fields items kind name =
      if is_named "wifi" name
      then (do
        ssid ← string_at items 1 "ssid"
        answer (("network_type", kind) ∷ ("ssid", string ssid) ∷ []))
      else if is_named "ethernet" name
      then (do
        ip ← hex_at items 1 "ip"
        dns ← hex_at items 2 "dns"
        gateway ← hex_at items 3 "gateway"
        netmask ← hex_at items 4 "netmask"
        answer (("network_type", kind) ∷ ip ∷ dns ∷ gateway ∷ netmask ∷ []))
      else answer (("network_type", kind) ∷ [])

  unfoldable pub decode_net_config : Values F → Answer Fields
  decode_net_config items = do
    id ← int_at items 0 "network_type"
    adapter_fields items (network_field id (network_name id)) (network_name id)

  unfoldable pub decode_ota_update : Values F → Answer Fields
  decode_ota_update items = do
    id ← hex_at items 0 "id"
    url ← string_at items 1 "url"
    initial ← hex_at items 2 "initial_sha"
    final ← hex_at items 3 "final_sha"
    answer (id ∷ ("url", string url) ∷ initial ∷ final ∷ [])

  unfoldable pub decode_ota_progress : Values F → Answer Fields
  decode_ota_progress items = do
    id ← hex_at items 0 "id"
    state ← int_at items 1 "state"
    state_data ← int_at items 2 "state_data"
    timestamp ← int_at items 3 "timestamp"
    answer (
        id
        ∷ ("state", integer state)
        ∷ ("state_data", integer state_data)
        ∷ ("timestamp", integer timestamp)
        ∷ [])

  abbrev pub decode_timezone_update : Values F → Answer Fields
  decode_timezone_update items = do
    offset ← int_at items 0 "offset"
    until ← int_at items 1 "until"
    answer (("offset", integer offset) ∷ ("until", integer until) ∷ [])

  abbrev pub string_field : Values F → String → Answer Fields
  string_field items field = do s ← string_at items 0 field; answer ((field, string s) ∷ [])

  -- The fields of every command but LastValues.update.
  unfoldable pub decode_fields : ℕ → Values F → Answer Fields
  decode_fields n items =
      if n == tag_device_begin
      then string_field items "lib_version"
      else if n == tag_thing_begin || (n == tag_thing_update || n == tag_thing_detach)
      then string_field items "thing_id"
      else if n == tag_last_values_begin || n == tag_timezone_request
      then answer []
      else if n == tag_device_net_config
      then decode_net_config items
      else if n == tag_timezone_update
      then decode_timezone_update items
      else if n == tag_ota_begin
      then (do sha256 ← hex_at items 0 "sha256"; answer (sha256 ∷ []))
      else if n == tag_ota_update
      then decode_ota_update items
      else if n == tag_ota_progress
      then decode_ota_progress items
      else answer (("fields", size (count items)) ∷ [])

  abbrev pub decode_last_values : Values F → Answer Command
  decode_last_values items = do
    b ← bytes_at items 0 "values"
    answer (command_of tag_last_values_update (some b) (("values_len", size (length b)) ∷ []))

  unfoldable pub decode_items_of : ℕ → Values F → Answer Command
  decode_items_of n items =
      if n == tag_last_values_update
      then decode_last_values items
      else (do fields ← decode_fields n items; answer (command_of n none fields))

  abbrev pub as_array : Value F → Answer (Values F)
  as_array (array items) = answer items
  as_array _ = refused not_array

  abbrev pub decode_tagged : Value F → Answer Command
  decode_tagged (tag n content) = as_array content >>= decode_items_of n
  decode_tagged _ = refused not_tag

  abbrev pub of_read : Read (Value F) → Answer (Value F)
  of_read (got v rest) = answer v
  of_read (failed e) = refused (not_cbor e)
  of_read panicked = crashed
  of_read stuck = endless

module _ {F : Type 0} (fl : Floats F) where
  unfoldable pub decode_command : List ℕ → Answer Command
  decode_command payload = of_read (decode fl payload) >>= decode_tagged
