-- ===== src/Wire/Decode.antt =====
-- cbor.go: Decode. A read ends with a value and what follows it, an error, or a panic of the runtime, which
-- a map's key that cannot be hashed raises; `stuck` is no outcome of the code: the nesting outran the fuel.
use arduino_cloud_connector.Common.{
  ℕ, zero, suc, ◌+◌, ◌*◌, ◌/◌, ◌%◌, Bool, true, false, not, ◌&&◌, List, [], ◌∷◌, length, take, drop,
  ltb, ◌==◌, if◌then◌else◌,
}
use arduino_cloud_connector.Common.Integers.{pos, negsuc, difference}
use arduino_cloud_connector.Wire.Cbor.{
  Floats, Value, null, bool, int64, uint64, float64, text, bytes, tag, array, map_of, Values,
  no_values, value, Pairs, no_pairs, pair, max_int64,
}

pub data Error : Type 0 where
  unexpected_end indefinite_length reserved_information negative_too_large : Error
  string_too_long array_too_long map_too_long truncated_argument : Error
  truncated_float unsupported_simple trailing_bytes : Error

pub data Read (A : Type 0) : Type 0 where
  got : A → List ℕ → Read A
  failed : Error → Read A
  panicked stuck : Read A

abbrev pub then_read : {A B : Type 0} → Read A → (A → List ℕ → Read B) → Read B
then_read (got a rest) f = f a rest
then_read (failed e) f = failed e
then_read panicked f = panicked
then_read stuck f = stuck

abbrev pub number : ℕ → List ℕ → ℕ
number acc [] = acc
number acc (b ∷ bs) = number (acc * 256 + b) bs

-- An argument of w bytes, the most significant first.
unfoldable pub fixed_argument : Error → ℕ → List ℕ → Read ℕ
fixed_argument e w rest =
    if ltb (length rest) w then failed e else got (number 0 (take w rest)) (drop w rest)

unfoldable pub decode_arg : ℕ → List ℕ → Read ℕ
decode_arg ai rest =
    if ltb ai 24
    then got ai rest
    else if ai == 24
    then fixed_argument truncated_argument 1 rest
    else if ai == 25
    then fixed_argument truncated_argument 2 rest
    else if ai == 26
    then fixed_argument truncated_argument 4 rest
    else fixed_argument truncated_argument 8 rest

-- The types that Go hashes: not []byte, []any and map, nor a Tag that holds one.
unfoldable pub is_hashable : {F : Type 0} → Value F → Bool
is_hashable (bytes v) = false
is_hashable (array vs) = false
is_hashable (map_of ps) = false
is_hashable (tag n v) = is_hashable v
is_hashable _ = true

module _ {F : Type 0} where
  -- The loop that reads n items.
  unfoldable pub decode_items : (List ℕ → Read (Value F)) → ℕ → List ℕ → Read (Values F)
  decode_items read zero rest = got no_values rest
  decode_items read (suc n) rest =
      then_read (read rest)
        (λ v rest'. then_read (decode_items read n rest') (λ vs rest''. got (value v vs) rest''))

  -- out[k] = v
  abbrev pub add_pair : Value F → Value F → Read (Pairs F) → Read (Pairs F)
  add_pair k v read = then_read read (λ ps rest. got (pair k v ps) rest)

  unfoldable pub decode_pairs : (List ℕ → Read (Value F)) → ℕ → List ℕ → Read (Pairs F)
  decode_pairs read zero rest = got no_pairs rest
  decode_pairs read (suc n) rest = then_read (read rest) (λ k rest'.
      then_read (read rest')
        (λ v rest''. if is_hashable k then add_pair k v (decode_pairs read n rest'') else panicked))

  -- What comes after the argument, for each major type but 7.
  unfoldable pub decode_content : (List ℕ → Read (Value F)) → ℕ → ℕ → List ℕ → Read (Value F)
  decode_content read major arg rest =
      if major == 0
      then got (if ltb max_int64 arg then uint64 arg else int64 (pos arg)) rest
      else if major == 1
      then (if ltb max_int64 arg then failed negative_too_large else got (int64 (negsuc arg)) rest)
      else if major == 2
      then (if ltb (length rest) arg
          then failed string_too_long
          else got (bytes (take arg rest)) (drop arg rest))
      else if major == 3
      then (if ltb (length rest) arg
          then failed string_too_long
          else got (text (take arg rest)) (drop arg rest))
      else if major == 4
      then (if ltb (length rest) arg
          then failed array_too_long
          else then_read (decode_items read arg rest) (λ vs rest'. got (array vs) rest'))
      else if major == 5
      then (if ltb (length rest) arg
          then failed map_too_long
          else then_read (decode_pairs read arg rest) (λ ps rest'. got (map_of ps) rest'))
      else then_read (read rest) (λ v rest'. got (tag arg v) rest')

module _ {F : Type 0} (fl : Floats F) where
  -- The magnitude of a float16, neither zero nor above all finite ones.
  abbrev pub half_magnitude : ℕ → ℕ → F
  half_magnitude zero mantissa = fl.multiply (fl.of_natural mantissa) (fl.exp2 (negsuc 23))
  half_magnitude (suc exponent) mantissa =
      fl.multiply
        (fl.add (fl.of_natural 1) (fl.divide (fl.of_natural mantissa) (fl.of_natural 1024)))
        (fl.exp2 (difference (suc exponent) 15))

  unfoldable pub float16_to_64 : ℕ → F
  float16_to_64 u =
      let negative = not (u / 0x8000 % 2 == 0) in
      let exponent = u / 1024 % 32 in
      let mantissa = u % 1024 in
      if exponent == 0 && mantissa == 0
      then (if negative then fl.negative_zero else fl.of_natural 0)
      else if exponent == 0x1f
      then (if not (mantissa == 0)
          then fl.nan
          else if negative
          then fl.negative_infinity
          else fl.infinity)
      else if negative
      then fl.negated (half_magnitude exponent mantissa)
      else half_magnitude exponent mantissa

  unfoldable pub decode_simple : ℕ → List ℕ → Read (Value F)
  decode_simple ai rest =
      if ai == 20
      then got (bool false) rest
      else if ai == 21
      then got (bool true) rest
      else if ai == 22
      then got null rest
      else if ai == 25
      then then_read (fixed_argument truncated_float 2 rest)
          (λ n r. got (float64 (float16_to_64 n)) r)
      else if ai == 26
      then then_read (fixed_argument truncated_float 4 rest)
          (λ n r. got (float64 (fl.of_float32 n)) r)
      else if ai == 27
      then then_read (fixed_argument truncated_float 8 rest) (λ n r. got (float64 (fl.of_bits n)) r)
      else failed unsupported_simple

  unfoldable pub decode_value : ℕ → List ℕ → Read (Value F)
  decode_value zero data_bytes = stuck
  decode_value (suc fuel) [] = failed unexpected_end
  decode_value (suc fuel) (b ∷ rest) =
      let major = b / 32 in
      let ai = b % 32 in
      let content = then_read (decode_arg ai rest) (decode_content (decode_value fuel) major) in
      if ai == 31
      then failed indefinite_length
      else if ltb 27 ai && not (major == 7)
      then failed reserved_information
      else if major == 7
      then decode_simple ai rest
      else content

  abbrev pub whole : Read (Value F) → Read (Value F)
  whole (got v []) = got v []
  whole (got v (b ∷ bs)) = failed trailing_bytes
  whole (failed e) = failed e
  whole panicked = panicked
  whole stuck = stuck

  -- Each level of nesting takes a byte at least.
  unfoldable pub decode : List ℕ → Read (Value F)
  decode input = whole (decode_value (suc (length input)) input)
