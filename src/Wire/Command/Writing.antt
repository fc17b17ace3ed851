-- ===== src/Wire/Command/Writing.antt =====
-- command.go: the encoders of the commands that the cloud sends.
use arduino_cloud_connector.Common.{ℕ, List, []}
use arduino_cloud_connector.Common.Integers.{ℤ, pos}
use arduino_cloud_connector.Wire.Cbor.{append_head, append_int, append_text, append_bytes}
use arduino_cloud_connector.Wire.Command.{
  tag_ota_update, tag_thing_update, tag_last_values_update, tag_timezone_update, tag_thing_detach,
}

abbrev pub encode_string_command : ℕ → List ℕ → List ℕ
encode_string_command n s = append_text (append_head (append_head [] 6 n) 4 1) s

abbrev pub encode_thing_update : List ℕ → List ℕ
encode_thing_update thing_id = encode_string_command tag_thing_update thing_id

abbrev pub encode_thing_detach : List ℕ → List ℕ
encode_thing_detach thing_id = encode_string_command tag_thing_detach thing_id

abbrev pub encode_last_values_update : List ℕ → List ℕ
encode_last_values_update values =
    append_bytes (append_head (append_head [] 6 tag_last_values_update) 4 1) values

abbrev pub encode_timezone_update : ℤ → ℕ → List ℕ
encode_timezone_update offset until =
    append_int (append_int (append_head (append_head [] 6 tag_timezone_update) 4 2) offset)
      (pos until)

abbrev pub encode_ota_update : List ℕ → List ℕ → List ℕ → List ℕ → List ℕ
encode_ota_update id url initial_sha final_sha =
    append_bytes
      (append_bytes
        (append_text (append_bytes (append_head (append_head [] 6 tag_ota_update) 4 4) id) url)
        initial_sha)
      final_sha
