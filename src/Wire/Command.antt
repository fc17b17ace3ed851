-- ===== src/Wire/Command.antt =====
-- test/e2e/internal/wire/command.go: the commands of the command channel, as the harness reads and
-- writes them. The texts that fmt.Sprintf makes of a number are constructors.
pub mod Reading
pub mod Writing
mod Examples
mod NetConfig
mod RoundTrip
use arduino_cloud_connector.Common.{
  ℕ, zero, suc, List, [], ◌∷◌, ◌++◌, length, Bool, false, ◌||◌, Option, none, some, String, ◌==◌,
  if◌then◌else◌, str_eq,
}
use arduino_cloud_connector.Common.Integers.{ℤ, pos, negsuc}
use arduino_cloud_connector.Certificate.Fields.{encode_hex}
use arduino_cloud_connector.Wire.Cbor.{
  Floats, Value, int64, uint64, text, bytes, tag, array, Values, no_values, value, count,
  append_head, append_int, append_text, append_bytes,
}
use arduino_cloud_connector.Wire.Decode.{Error, Read, got, failed, panicked, stuck, decode}

abbrev pub tag_ota_begin : ℕ
tag_ota_begin = 0x10000

abbrev pub tag_ota_update : ℕ
tag_ota_update = 0x10100

abbrev pub tag_ota_progress : ℕ
tag_ota_progress = 0x10200

abbrev pub tag_thing_begin : ℕ
tag_thing_begin = 0x10300

abbrev pub tag_thing_update : ℕ
tag_thing_update = 0x10400

abbrev pub tag_last_values_begin : ℕ
tag_last_values_begin = 0x10500

abbrev pub tag_last_values_update : ℕ
tag_last_values_update = 0x10600

abbrev pub tag_device_begin : ℕ
tag_device_begin = 0x10700

abbrev pub tag_timezone_request : ℕ
tag_timezone_request = 0x10800

abbrev pub tag_timezone_update : ℕ
tag_timezone_update = 0x10900

abbrev pub tag_thing_detach : ℕ
tag_thing_detach = 0x11000

abbrev pub tag_device_net_config : ℕ
tag_device_net_config = 0x11100

-- `numbered n` is what "0x%05x" prints.
pub data Name : Type 0 where
  named : String → Name
  numbered : ℕ → Name

abbrev pub name_table : List (ℕ × String)
name_table =
    (tag_ota_begin, "OTA.begin")
    ∷ (tag_ota_update, "OTA.update")
    ∷ (tag_ota_progress, "OTA.progress")
    ∷ (tag_thing_begin, "Thing.begin")
    ∷ (tag_thing_update, "Thing.update")
    ∷ (tag_last_values_begin, "LastValues.begin")
    ∷ (tag_last_values_update, "LastValues.update")
    ∷ (tag_device_begin, "Device.begin")
    ∷ (tag_timezone_request, "Timezone.request")
    ∷ (tag_timezone_update, "Timezone.update")
    ∷ (tag_thing_detach, "Thing.detach")
    ∷ (tag_device_net_config, "DeviceNetConfig")
    ∷ []

-- `type_number id` is what "type_%d" prints.
pub data FieldValue : Type 0 where
  string : List ℕ → FieldValue
  network : String → FieldValue
  type_number integer : ℤ → FieldValue
  size : ℕ → FieldValue

abbrev pub Fields : Type 0
Fields = List (String × FieldValue)

-- `values` is nil but for LastValues.update.
pub record Command : Type 0 where
  pub name : Name
  pub tag_number : ℕ
  pub fields : Fields
  pub values : Option (List ℕ)

pub data CommandError : Type 0 where
  not_cbor : Error → CommandError
  not_tag not_array : CommandError
  missing wrong_type too_large : String → CommandError

-- `crashed` is a panic of the CBOR reader, `endless` its want of fuel.
pub data Answer (A : Type 0) : Type 0 where
  answer : A → Answer A
  refused : CommandError → Answer A
  crashed endless : Answer A

infixl 5 ◌>>=◌
abbrev pub ◌>>=◌ : {A B : Type 0} → Answer A → (A → Answer B) → Answer B
answer a >>= f = f a
refused e >>= f = refused e
crashed >>= f = crashed
endless >>= f = endless

abbrev pub look_up : ℕ → List (ℕ × String) → Option String
look_up n [] = none
look_up n ((m, name) ∷ rest) = if m == n then some name else look_up n rest

abbrev pub name_of : ℕ → Option String → Name
name_of n none = numbered n
name_of n (some name) = named name

unfoldable pub command_name : ℕ → Name
command_name n = name_of n (look_up n name_table)

abbrev pub network_table : List (ℕ × String)
network_table =
    (0, "unknown")
    ∷ (1, "wifi")
    ∷ (2, "lora")
    ∷ (3, "gsm")
    ∷ (4, "nb")
    ∷ (5, "catm1")
    ∷ (6, "ethernet")
    ∷ (7, "cellular")
    ∷ []

abbrev pub network_name : ℤ → Option String
network_name (pos n) = look_up n network_table
network_name (negsuc n) = none

abbrev pub network_field : ℤ → Option String → FieldValue
network_field id none = type_number id
network_field id (some name) = network name

-- No text "type_%d" is the name of an adapter.
abbrev pub is_named : String → Option String → Bool
is_named name none = false
is_named name (some other) = str_eq name other

abbrev pub command_of : ℕ → Option (List ℕ) → Fields → Command
command_of n values fields = record {
  name = command_name n;
  tag_number = n;
  fields = fields;
  values = values;
}

module _ {F : Type 0} where
  abbrev pub item_at : String → Values F → ℕ → Answer (Value F)
  item_at field no_values i = refused (missing field)
  item_at field (value v vs) zero = answer v
  item_at field (value v vs) (suc i) = item_at field vs i

  abbrev pub as_string : String → Value F → Answer (List ℕ)
  as_string field (text s) = answer s
  as_string field _ = refused (wrong_type field)

  abbrev pub as_bytes : String → Value F → Answer (List ℕ)
  as_bytes field (bytes b) = answer b
  as_bytes field _ = refused (wrong_type field)

  abbrev pub as_int : String → Value F → Answer ℤ
  as_int field (int64 n) = answer n
  as_int field (uint64 n) = refused (too_large field)
  as_int field _ = refused (wrong_type field)

  abbrev pub string_at : Values F → ℕ → String → Answer (List ℕ)
  string_at items i field = item_at field items i >>= as_string field

  abbrev pub bytes_at : Values F → ℕ → String → Answer (List ℕ)
  bytes_at items i field = item_at field items i >>= as_bytes field

  abbrev pub int_at : Values F → ℕ → String → Answer ℤ
  int_at items i field = item_at field items i >>= as_int field

  abbrev pub hex_at : Values F → ℕ → String → Answer (String × FieldValue)
  hex_at items i field = do b ← bytes_at items i field; answer (field, string (encode_hex b))
