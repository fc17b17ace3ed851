-- ===== src/Wire/Command/Examples.antt =====
-- command.go and netconfig.go: the theorems at concrete commands, and tests.
use arduino_cloud_connector.Common.{
  ℕ, ◌≡◌, refl, none, some, String, str_eq, if◌then◌else◌, List, [], ◌∷◌, arith,
}
use arduino_cloud_connector.Common.Integers.{pos, negsuc}
use arduino_cloud_connector.Command.{wifi, DeviceNetConfig}
use arduino_cloud_connector.Command.NetConfig.{Item, uint8, text, bytes, marshal_cbor}
use arduino_cloud_connector.Wire.Cbor.{
  count, append_head, append_int, append_text, append_bytes, append_value, append_values,
}
use arduino_cloud_connector.Wire.Decode.{
  decode, decode_value, decode_arg, decode_content, decode_items, fixed_argument,
}
use arduino_cloud_connector.Wire.Examples.{named as named_floats}
use arduino_cloud_connector.Wire.Command.{answer, refused, numbered, size, not_tag, command_name}
use arduino_cloud_connector.Wire.Command.Reading.{decode_command, decode_items_of, decode_fields}
use arduino_cloud_connector.Wire.Command.RoundTrip.{
  timezone_update, written, meaning, decode_command-written,
}
use arduino_cloud_connector.Wire.Command.NetConfig.{
  item_values, report, IsShort, WritesShortest, decode_command-marshal_cbor,
}

decode_command-written_example :
    decode_command named_floats (written (timezone_update (negsuc 3599) 1700000000))
    ≡ answer (meaning (timezone_update (negsuc 3599) 1700000000))
decode_command-written_example =
    decode_command-written named_floats (timezone_update (negsuc 3599) 1700000000)
      (omega arith, omega arith)

-- The bytes of the one text here.
abbrev utf8 : String → List ℕ
utf8 s = if str_eq s "lab" then 108 ∷ 97 ∷ 98 ∷ [] else []

abbrev append_item : List ℕ → Item → List ℕ
append_item b (uint8 n) = append_int b (pos n)
append_item b (text s) = append_text b (utf8 s)
append_item b (bytes v) = append_bytes b v

abbrev append_items : List ℕ → List Item → List ℕ
append_items b [] = b
append_items b (i ∷ is) = append_items (append_item b i) is

-- A library that writes the shortest form.
abbrev shortest : ℕ → List Item → List ℕ
shortest n items =
    append_items (append_head (append_head [] 6 n) 4 (count (item_values utf8 {F = ℕ} items))) items

append_items-some :
    (b : List ℕ) (items : List Item)
    → append_values named_floats b (item_values utf8 items) ≡ some (append_items b items)
unfolding append_value append_values
append_items-some b [] = refl
append_items-some b (uint8 n ∷ is) = append_items-some (append_int b (pos n)) is
append_items-some b (text s ∷ is) = append_items-some (append_text b (utf8 s)) is
append_items-some b (bytes v ∷ is) = append_items-some (append_bytes b v) is

shortest-WritesShortest : WritesShortest named_floats utf8 shortest
unfolding append_value
shortest-WritesShortest n items =
    append_items-some (append_head (append_head [] 6 n) 4 (count (item_values utf8 {F = ℕ} items)))
      items

abbrev lab : DeviceNetConfig
lab = record { network = wifi; ssid = "lab"; ip = []; dns = []; gateway = []; netmask = [] }

lab-IsShort : IsShort utf8 lab
lab-IsShort = record {
  network = tt;
  ssid = omega arith;
  ip = omega arith;
  dns = omega arith;
  gateway = omega arith;
  netmask = omega arith;
}

decode_command-marshal_cbor_example :
    decode_command named_floats (marshal_cbor shortest lab) ≡ answer (report utf8 lab)
decode_command-marshal_cbor_example =
    decode_command-marshal_cbor named_floats utf8 shortest lab shortest-WritesShortest lab-IsShort

-- A tag that the harness does not know, and a field of the wrong type.
unknown_tag :
    decode_command named_floats (0xd9 ∷ 1 ∷ 0 ∷ 0x80 ∷ [])
    ≡ answer record {
      name = numbered 256;
      tag_number = 256;
      fields = ("fields", size 0) ∷ [];
      values = none;
    }
unfolding decode_command decode_items_of decode_fields command_name count decode decode_value
    decode_arg decode_content decode_items fixed_argument
unknown_tag = refl

untagged : decode_command named_floats (0x80 ∷ []) ≡ refused not_tag
unfolding decode_command decode decode_value decode_arg decode_content decode_items
untagged = refl
