-- ===== src/Command/NetConfig.antt =====
-- internal/mqtt/command/netconfig.go: MarshalCBOR, over a CBOR library that is a parameter.
use arduino_cloud_connector.Common.{ℕ, String, List, [], ◌∷◌}
use arduino_cloud_connector.Command.{
  NetworkType, unknown_network, wifi, lora, gsm, nb, cat_m1, ethernet, cellular, other_network,
  DeviceNetConfig,
}

-- What stands in the []interface{}.
pub data Item : Type 0 where
  uint8 : ℕ → Item
  text : String → Item
  bytes : List ℕ → Item

abbrev pub tag_device_net_config : ℕ
tag_device_net_config = 0x011100

abbrev pub number_of : NetworkType → ℕ
number_of unknown_network = 0
number_of wifi = 1
number_of lora = 2
number_of gsm = 3
number_of nb = 4
number_of cat_m1 = 5
number_of ethernet = 6
number_of cellular = 7
number_of (other_network n) = n

abbrev pub content_at : NetworkType → DeviceNetConfig → List Item
content_at wifi c = uint8 (number_of c.network) ∷ text c.ssid ∷ []
content_at ethernet c =
    uint8 (number_of c.network) ∷ bytes c.ip ∷ bytes c.dns ∷ bytes c.gateway ∷ bytes c.netmask ∷ []
content_at _ c = uint8 (number_of c.network) ∷ []

abbrev pub content : DeviceNetConfig → List Item
content c = content_at c.network c

-- `marshal n items` is netConfigEM.Marshal of a cbor.Tag: a nil slice is an empty byte string.
unfoldable pub marshal_cbor : (ℕ → List Item → List ℕ) → DeviceNetConfig → List ℕ
marshal_cbor marshal c = marshal tag_device_net_config (content c)
