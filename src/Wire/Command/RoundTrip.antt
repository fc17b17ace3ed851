-- ===== src/Wire/Command/RoundTrip.antt =====
-- command.go: DecodeCommand on what the encoders write.
use arduino_cloud_connector.Common.{
  ℕ, ◌<◌, ◌≡◌, refl, sym, ap, ◌∙◌, none, some, List, [], ◌∷◌, length, arith,
}
use mathlib.Core.Option.{map, some-injective}
use arduino_cloud_connector.Common.Integers.{ℤ, pos}
use arduino_cloud_connector.Certificate.Fields.{encode_hex}
use arduino_cloud_connector.Wire.Cbor.{
  Floats, Value, int64, text, bytes, tag, array, Values, no_values, value, count, append_value,
  append_values,
}
use arduino_cloud_connector.Wire.Decode.{got, decode}
use arduino_cloud_connector.Wire.Encoded.{IsEncodable, AreEncodable, IsInt64, IsLength}
use arduino_cloud_connector.Wire.RoundTrip.{decode-append_value}
use arduino_cloud_connector.Wire.Command.{
  tag_ota_update, tag_thing_update, tag_last_values_update, tag_timezone_update, tag_thing_detach,
  named, command_name, string, integer, size, Command, answer, ◌>>=◌,
}
use arduino_cloud_connector.Wire.Command.Reading.{
  decode_tagged, decode_items_of, decode_fields, decode_ota_update, of_read, decode_command,
}
use arduino_cloud_connector.Wire.Command.Writing.{
  encode_thing_update, encode_thing_detach, encode_last_values_update, encode_timezone_update,
  encode_ota_update,
}

-- The commands that the cloud sends, with the encoder of each.
pub data Downlink : Type 0 where
  thing_update thing_detach last_values_update : List ℕ → Downlink
  timezone_update : ℤ → ℕ → Downlink
  ota_update : List ℕ → List ℕ → List ℕ → List ℕ → Downlink

abbrev pub written : Downlink → List ℕ
written (thing_update id) = encode_thing_update id
written (thing_detach id) = encode_thing_detach id
written (last_values_update b) = encode_last_values_update b
written (timezone_update offset until) = encode_timezone_update offset until
written (ota_update id url initial final) = encode_ota_update id url initial final

abbrev pub meaning : Downlink → Command
meaning (thing_update id) = record {
  name = named "Thing.update";
  tag_number = 0x10400;
  fields = ("thing_id", string id) ∷ [];
  values = none;
}
meaning (thing_detach id) = record {
  name = named "Thing.detach";
  tag_number = 0x11000;
  fields = ("thing_id", string id) ∷ [];
  values = none;
}
meaning (last_values_update b) = record {
  name = named "LastValues.update";
  tag_number = 0x10600;
  fields = ("values_len", size (length b)) ∷ [];
  values = some b;
}
meaning (timezone_update offset until) = record {
  name = named "Timezone.update";
  tag_number = 0x10900;
  fields = ("offset", integer offset) ∷ ("until", integer (pos until)) ∷ [];
  values = none;
}
meaning (ota_update id url initial final) = record {
  name = named "OTA.update";
  tag_number = 0x10100;
  fields =
      ("id", string (encode_hex id))
      ∷ ("url", string url)
      ∷ ("initial_sha", string (encode_hex initial))
      ∷ ("final_sha", string (encode_hex final))
      ∷ [];
  values = none;
}

-- Lengths and numbers of the widths of Go.
abbrev pub IsSendable : Downlink → Type 0
IsSendable (thing_update id) = IsLength id
IsSendable (thing_detach id) = IsLength id
IsSendable (last_values_update b) = IsLength b
IsSendable (timezone_update offset until) = IsInt64 offset × (until < 4294967296)
IsSendable (ota_update id url initial final) =
    IsLength id × IsLength url × IsLength initial × IsLength final

module _ {F : Type 0} where
  one : Value F → Values F
  one v = value v no_values

  value_of : Downlink → Value F
  value_of (thing_update id) = tag tag_thing_update (array (one (text id)))
  value_of (thing_detach id) = tag tag_thing_detach (array (one (text id)))
  value_of (last_values_update b) = tag tag_last_values_update (array (one (bytes b)))
  value_of (timezone_update offset until) =
      tag tag_timezone_update (array (value (int64 offset) (one (int64 (pos until)))))
  value_of (ota_update id url initial final) =
      tag tag_ota_update
        (array (value (bytes id) (value (text url) (value (bytes initial) (one (bytes final))))))

decode_tagged-value_of :
    (F : Type 0) (m : Downlink) → decode_tagged {F = F} (value_of m) ≡ answer (meaning m)
unfolding value_of one decode_items_of decode_fields decode_ota_update command_name
decode_tagged-value_of F (thing_update id) = refl
decode_tagged-value_of F (thing_detach id) = refl
decode_tagged-value_of F (last_values_update b) = refl
decode_tagged-value_of F (timezone_update offset until) = refl
decode_tagged-value_of F (ota_update id url initial final) = refl

module _ {F : Type 0} (fl : Floats F) where
  value_of-written : (m : Downlink) → append_value fl [] (value_of m) ≡ some (written m)
  unfolding value_of one append_value append_values count
  value_of-written (thing_update id) = refl
  value_of-written (thing_detach id) = refl
  value_of-written (last_values_update b) = refl
  value_of-written (timezone_update offset until) = refl
  value_of-written (ota_update id url initial final) = refl

  value_of-IsEncodable : (m : Downlink) → IsSendable m → IsEncodable fl (value_of m)
  unfolding value_of one IsEncodable AreEncodable count
  value_of-IsEncodable (thing_update id) h = (omega arith, (omega arith, (h, tt)))
  value_of-IsEncodable (thing_detach id) h = (omega arith, (omega arith, (h, tt)))
  value_of-IsEncodable (last_values_update b) h = (omega arith, (omega arith, (h, tt)))
  value_of-IsEncodable (timezone_update offset until) h =
      (omega arith, (omega arith, (h.0, (omega arith, tt))))
  value_of-IsEncodable (ota_update id url initial final) (h0, h1, h2, h3) =
      (omega arith, (omega arith, (h0, (h1, (h2, (h3, tt))))))

  pub decode-written :
      (v : Value F) (bs : List ℕ)
      → append_value fl [] v ≡ some bs
      → IsEncodable fl v
      → decode fl bs ≡ got v []
  decode-written v bs w h =
      some-injective _ _ (sym (ap (map (decode fl)) w) ∙ decode-append_value fl v h)

  -- DecodeCommand makes of what the encoder of any of the five downlink commands writes, with
  -- strings shorter than 2^64 bytes and numbers of their widths, the command with its name, its tag
  -- and all its fields, a hash or an id in hexadecimal.
  pub decode_command-written :
      (m : Downlink) → IsSendable m → decode_command fl (written m) ≡ answer (meaning m)
  unfolding decode_command
  decode_command-written m h =
      ap (λ r. of_read r >>= decode_tagged)
        (decode-written (value_of m) (written m) (value_of-written m) (value_of-IsEncodable m h))
      ∙ decode_tagged-value_of F m
