-- ===== src/Wire/Command/NetConfig.antt =====
-- netconfig.go against command.go of the harness: what the daemon says of the network, DecodeCommand reads.
use arduino_cloud_connector.Common.{
  ℕ, ◌<◌, ◌≡◌, refl, ap, ◌∙◌, none, some, String, List, [], ◌∷◌, arith,
}
use arduino_cloud_connector.Common.Integers.{pos}
use arduino_cloud_connector.Certificate.Fields.{encode_hex}
use arduino_cloud_connector.Command.{
  NetworkType, unknown_network, wifi, lora, gsm, nb, cat_m1, ethernet, cellular, other_network,
  DeviceNetConfig,
}
use arduino_cloud_connector.Command.NetConfig.{Item, uint8, text, bytes, content_at, marshal_cbor}
use arduino_cloud_connector.Wire.Cbor as Cbor
use arduino_cloud_connector.Wire.Cbor.{
  Floats, Value, Values, no_values, value, count, append_value, int64, tag, array,
}
use arduino_cloud_connector.Wire.Encoded.{IsEncodable, AreEncodable, IsLength}
use arduino_cloud_connector.Wire.Command.{
  look_up, network_table, named, command_name, string, network, type_number, FieldValue, Fields,
  Command, answer, ◌>>=◌,
}
use arduino_cloud_connector.Wire.Command.Reading.{
  decode_tagged, decode_items_of, decode_fields, decode_net_config, of_read, decode_command,
}
use arduino_cloud_connector.Wire.Command.RoundTrip.{decode-written}

abbrev pub kind_of : NetworkType → FieldValue
kind_of unknown_network = network "unknown"
kind_of wifi = network "wifi"
kind_of lora = network "lora"
kind_of gsm = network "gsm"
kind_of nb = network "nb"
kind_of cat_m1 = network "catm1"
kind_of ethernet = network "ethernet"
kind_of cellular = network "cellular"
kind_of (other_network n) = type_number (pos n)

module _ (utf8 : String → List ℕ) where
  abbrev pub details : NetworkType → DeviceNetConfig → Fields
  details wifi c = ("ssid", string (utf8 c.ssid)) ∷ []
  details ethernet c =
      ("ip", string (encode_hex c.ip))
      ∷ ("dns", string (encode_hex c.dns))
      ∷ ("gateway", string (encode_hex c.gateway))
      ∷ ("netmask", string (encode_hex c.netmask))
      ∷ []
  details _ c = []

  abbrev pub report : DeviceNetConfig → Command
  report c = record {
    name = named "DeviceNetConfig";
    tag_number = 0x11100;
    fields = ("network_type", kind_of c.network) ∷ details c.network c;
    values = none;
  }

  abbrev pub item_value : {F : Type 0} → Item → Value F
  item_value (uint8 n) = int64 (pos n)
  item_value (text s) = Cbor.text (utf8 s)
  item_value (bytes b) = Cbor.bytes b

  abbrev pub item_values : {F : Type 0} → List Item → Values F
  item_values [] = no_values
  item_values (i ∷ is) = value (item_value i) (item_values is)

-- A number with no name is none of those that have one.
abbrev pub IsNetwork : NetworkType → Type 0
IsNetwork (other_network n) = (7 < n) × (n < 256)
IsNetwork _ = Unit {0}

pub record IsShort (utf8 : String → List ℕ) (c : DeviceNetConfig) : Type 0 where
  pub network : IsNetwork c.network
  pub ssid : IsLength (utf8 c.ssid)
  pub ip : IsLength c.ip
  pub dns : IsLength c.dns
  pub gateway : IsLength c.gateway
  pub netmask : IsLength c.netmask

-- The documented encoding of the library: a tag, an array and its items, each in the shortest form.
abbrev pub WritesShortest :
    {F : Type 0} → Floats F → (String → List ℕ) → (ℕ → List Item → List ℕ) → Type 0
WritesShortest {F} fl utf8 marshal =
    (n : ℕ) (items : List Item)
    → append_value fl [] (tag n (array (item_values utf8 items))) ≡ some (marshal n items)

no_name : (n : ℕ) → 7 < n → look_up n network_table ≡ none
no_name n h = ground arith

module _ (F : Type 0) (utf8 : String → List ℕ) where
  abbrev net_value : NetworkType → DeviceNetConfig → Value F
  net_value t c = tag 0x11100 (array (item_values utf8 (content_at t c)))

  decode_tagged-net_value :
      (t : NetworkType) (c : DeviceNetConfig)
      → c.network ≡ t
      → IsNetwork t
      → decode_tagged (net_value t c) ≡ answer (report utf8 c)
  unfolding decode_items_of decode_fields decode_net_config command_name
  decode_tagged-net_value unknown_network c e h = rw e refl
  decode_tagged-net_value wifi c e h = rw e refl
  decode_tagged-net_value lora c e h = rw e refl
  decode_tagged-net_value gsm c e h = rw e refl
  decode_tagged-net_value nb c e h = rw e refl
  decode_tagged-net_value cat_m1 c e h = rw e refl
  decode_tagged-net_value ethernet c e h = rw e refl
  decode_tagged-net_value cellular c e h = rw e refl
  decode_tagged-net_value (other_network n) c e h = rw (e, no_name n h.0) refl

module _ {F : Type 0} (fl : Floats F) (utf8 : String → List ℕ)
    (marshal : ℕ → List Item → List ℕ) where
  net_value-IsEncodable :
      (t : NetworkType) (c : DeviceNetConfig)
      → c.network ≡ t
      → IsNetwork t
      → IsShort utf8 c
      → IsEncodable fl (net_value F utf8 t c)
  unfolding IsEncodable AreEncodable count
  net_value-IsEncodable wifi c e h s =
      rw e (omega arith, (omega arith, (omega arith, (s.ssid, tt))))
  net_value-IsEncodable ethernet c e h s =
      rw e
        (omega arith, (omega arith, (omega arith, (s.ip, (s.dns, (s.gateway, (s.netmask, tt)))))))
  net_value-IsEncodable unknown_network c e h s =
      rw e (omega arith, (omega arith, (omega arith, tt)))
  net_value-IsEncodable lora c e h s = rw e (omega arith, (omega arith, (omega arith, tt)))
  net_value-IsEncodable gsm c e h s = rw e (omega arith, (omega arith, (omega arith, tt)))
  net_value-IsEncodable nb c e h s = rw e (omega arith, (omega arith, (omega arith, tt)))
  net_value-IsEncodable cat_m1 c e h s = rw e (omega arith, (omega arith, (omega arith, tt)))
  net_value-IsEncodable cellular c e h s = rw e (omega arith, (omega arith, (omega arith, tt)))
  net_value-IsEncodable (other_network n) c e h s =
      rw e (omega arith, (omega arith, (omega arith, tt)))

  -- If the CBOR library writes a tag about an array of integers, texts and byte strings in the
  -- shortest form, as it documents, and an adapter number with no name is not one of those that
  -- have one, then the harness, which reads commands by a codec of its own, decodes what
  -- MarshalCBOR writes of a network configuration as DeviceNetConfig: with the adapter's name, for
  -- WiFi the SSID, for Ethernet the four addresses in hexadecimal, and nothing else.
  pub decode_command-marshal_cbor :
      (c : DeviceNetConfig)
      → WritesShortest fl utf8 marshal
      → IsShort utf8 c
      → decode_command fl (marshal_cbor marshal c) ≡ answer (report utf8 c)
  unfolding decode_command marshal_cbor
  decode_command-marshal_cbor c writes s =
      ap (λ r. of_read r >>= decode_tagged)
        (decode-written fl (net_value F utf8 c.network c) (marshal_cbor marshal c)
          (writes 0x11100 (content_at c.network c))
          (net_value-IsEncodable c.network c refl s.network s))
      ∙ decode_tagged-net_value F utf8 c.network c refl s.network
