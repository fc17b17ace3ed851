-- ===== src/Senml/Examples.antt =====
-- The theorems on SenML with whole numbers for both number types.
use arduino_cloud_connector.Common.{
  true, ℕ, ◌+◌, ◌-◌, ◌*◌, ◌==◌, String, ltb, ◌≡◌, refl, none, some, List, [], ◌∷◌,
}
use arduino_cloud_connector.Common.Integers.{ℤ, pos, negsuc}
use arduino_cloud_connector.Variables.Text.{append}
use arduino_cloud_connector.Senml.{
  Floats, encode_time, resolve_time, Record, Variable, int, string, bool, encode_records, validate,
  to_variables,
}
use arduino_cloud_connector.Senml.Plain.{Lawful, sorted}
use arduino_cloud_connector.Senml.Roundtrip.{decode-encode}
use arduino_cloud_connector.Senml.Names.{to_variables_first}

abbrev natural : ℤ → ℕ
natural (pos n) = n
natural (negsuc n) = 0

abbrev whole : Floats ℕ ℕ
whole = record {
  zero = 0;
  is_zero = λ x. x == 0;
  plus = λ x y. x + y;
  minus = λ x y. x - y;
  times = λ x y. x * y;
  less = λ x y. ltb x y;
  of_int = natural;
  to_int = pos;
  int_is_zero = λ n. n == 0;
}

whole-Lawful : Lawful whole
whole-Lawful = record { zero_is_zero = refl; plus_zero = refl }

abbrev light : List (Variable ℕ ℕ)
light =
    record { name = "light:swi"; value = bool true; timestamp = pos 0 }
    ∷ record { name = "light:hue"; value = int 7; timestamp = pos 0 }
    ∷ []

decode-encode_example :
    (rs : List (Record ℕ ℕ)) × (encode_records whole light ≡ some rs)
    × (validate whole "" rs ≡ [])
    × (to_variables whole rs ≡ sorted whole light)
decode-encode_example = decode-encode whole whole-Lawful light (
  record { named = refl; supported = tt; timeless = refl },
  (record { named = refl; supported = tt; timeless = refl }, tt),
)

-- A record with a text.
abbrev text_record : String → String → String → Record ℕ ℕ
text_record base_name name text = record {
  base_name = base_name;
  base_time = 0;
  base_unit = "";
  base_version = 0;
  base_value = none;
  base_sum = none;
  name = name;
  unit = "";
  time = 0;
  update_time = 0;
  value = none;
  string_value = some text;
  data_value = none;
  bool_value = none;
  sum = none;
}

to_variables_first_example :
    (v : Variable ℕ ℕ) × (vs : List (Variable ℕ ℕ)) × (to_variables whole
        (text_record "a:" "x" "on" ∷ text_record "b:" "x" "off" ∷ [])
      ≡ v ∷ vs)
    × (v.name ≡ append "b:" "x")
    × (v.value ≡ string "on")
unfolding append
to_variables_first_example =
    to_variables_first whole (text_record "a:" "x" "on") (text_record "b:" "x" "off") "on" refl refl
      refl refl

-- A time of whole milliseconds comes back; 1_700_000_000.123 seconds after the epoch.
abbrev in_2023 : ℤ
in_2023 = pos (63_835_596_800_123 * 1_000_000)

milliseconds : encode_time whole in_2023 ≡ 1_700_000_000_123
unfolding encode_time
milliseconds = refl

same_time : resolve_time whole 1_700_000_000_123 ≡ in_2023
unfolding resolve_time
same_time = refl
