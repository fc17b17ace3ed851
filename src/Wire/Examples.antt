-- ===== src/Wire/Examples.antt =====
-- cbor.go: the theorems at a concrete value, and tests.
use arduino_cloud_connector.Common.{ℕ, ◌+◌, ◌*◌, ◌/◌, ◌≡◌, ◌≢◌, refl, some, [], ◌∷◌, arith}
use mathlib.Core.Option.{map}
use arduino_cloud_connector.Common.Integers.{pos, negsuc}
use arduino_cloud_connector.Wire.Cbor.{
  Floats, Value, null, int64, uint64, float64, text, bytes, tag, array, no_values, value,
  append_value, append_head, append_int, count,
}
use arduino_cloud_connector.Wire.Decode.{
  got, failed, panicked, stuck, decode, decode_value, decode_simple, decode_arg, decode_content,
  decode_pairs, fixed_argument, is_hashable, trailing_bytes, truncated_argument,
}
use arduino_cloud_connector.Wire.Encoded.{IsEncodable, AreEncodable}
use arduino_cloud_connector.Wire.Returns.{decode-returns}
use arduino_cloud_connector.Wire.RoundTrip.{decode-append_value}

-- A float is named by its bits; its arithmetic is of no account here.
abbrev pub named : Floats ℕ
named = record {
  bits = λ x. x;
  of_bits = λ n. n;
  of_float32 = λ n. n;
  of_natural = λ n. n;
  exp2 = λ e. 1;
  add = λ x y. x + y;
  multiply = λ x y. x * y;
  divide = λ x y. x / y;
  negated = λ x. x;
  nan = 0x7ff8000000000001;
  infinity = 0x7ff0000000000000;
  negative_infinity = 0xfff0000000000000;
  negative_zero = 0x8000000000000000;
}

-- A command: the tag 0x010500 about ["ab", -6, 2^63, 1.5, h'ff00', null].
abbrev command : Value ℕ
command = tag 0x010500 (
    array (
      value (text (97 ∷ 98 ∷ [])) (
        value (int64 (negsuc 5)) (
          value (uint64 9223372036854775808) (
            value (float64 0x3ff8000000000000)
              (value (bytes (255 ∷ 0 ∷ [])) (value null no_values)))))))

command-IsEncodable : IsEncodable named command
unfolding IsEncodable AreEncodable count
command-IsEncodable = (
  omega arith,
  (
    omega arith,
    (
      omega arith,
      (omega arith, ((omega arith, omega arith), ((omega arith, refl), (omega arith, (tt, tt))))),
    ),
  ),
)

decode-append_value_example :
    map (decode named) (append_value named [] command) ≡ some (got command [])
decode-append_value_example = decode-append_value named command command-IsEncodable

written : append_value named [] (tag 300 (int64 (pos 24))) ≡ some (217 ∷ 1 ∷ 44 ∷ 24 ∷ 24 ∷ [])
unfolding append_value append_head append_int
written = refl

-- {h'': 0}
unhashable_key : decode named (0xa1 ∷ 0x40 ∷ 0 ∷ []) ≡ panicked
unfolding decode decode_value decode_arg decode_content decode_pairs fixed_argument is_hashable
unhashable_key = refl

left_over : decode named (0xf6 ∷ 0 ∷ []) ≡ failed trailing_bytes
unfolding decode decode_value decode_simple
left_over = refl

cut_short : decode named (0x19 ∷ 1 ∷ []) ≡ failed truncated_argument
unfolding decode decode_value decode_arg fixed_argument
cut_short = refl

decode-returns_example : decode named (0xa1 ∷ 0x40 ∷ 0 ∷ []) ≢ stuck
decode-returns_example = decode-returns named (0xa1 ∷ 0x40 ∷ 0 ∷ [])
