-- ===== src/Wire/RoundTrip.antt =====
-- cbor.go: what appendValue writes, Decode reads back.
use arduino_cloud_connector.Common.{
  ℕ, zero, suc, ◌≤◌, ◌<◌, ◌≡◌, refl, ◌∙◌, ap, sym, true, false, some, List, [], ◌++◌, length,
  length-append, arith,
}
use mathlib.Core.Option.{map}
use mathlib.Core.List.{append_assoc, append-nil}
use arduino_cloud_connector.Common.Integers.{pos, negsuc}
use arduino_cloud_connector.Wire.Cbor.{
  Floats, Value, null, bool, int64, uint64, float64, text, bytes, tag, array, map_of, Values,
  no_values, value, count, append_value,
}
use arduino_cloud_connector.Wire.Decode.{
  Read, got, then_read, decode_items, decode_simple, decode_value, whole, decode, truncated_float,
}
use arduino_cloud_connector.Wire.Heads.{head, argument_bytes, decode_value-head, fixed_8}
use arduino_cloud_connector.Wire.Encoded.{
  IsEncodable, AreEncodable, encoded, encoded_all, append_value-encoded,
}
use arduino_cloud_connector.Wire.Contents.{
  content_0, content_0_large, content_1, content_2, content_3, content_4, content_6,
}

length-encoded :
    {F : Type 0} (fl : Floats F) (v : Value F) → IsEncodable fl v → 0 < length (encoded fl v)
unfolding encoded IsEncodable
length-encoded fl null h = omega arith
length-encoded fl (bool true) h = omega arith
length-encoded fl (bool false) h = omega arith
length-encoded fl (int64 (pos n)) h = omega arith
length-encoded fl (int64 (negsuc n)) h = omega arith
length-encoded fl (uint64 n) h = omega arith
length-encoded fl (float64 x) h = omega arith
length-encoded fl (text s) h = omega arith
length-encoded fl (bytes s) h = omega arith
length-encoded fl (tag n v) h = omega arith
length-encoded fl (array vs) h = omega arith
length-encoded fl (map_of ps) h = elim h [ ]

count-le :
    {F : Type 0} (fl : Floats F) (vs : Values F)
    → AreEncodable fl vs
    → count vs ≤ length (encoded_all fl vs)
unfolding count encoded_all AreEncodable
count-le fl no_values h = omega arith
count-le fl (value v vs) h = omega (
  arith,
  count-le fl vs h.1,
  length-encoded fl v h.0,
  length-append (encoded fl v) (encoded_all fl vs),
)

shorter :
    (fuel major arg : ℕ) (bs : List ℕ) → length (head major arg ++ bs) < suc fuel → length bs < fuel
shorter fuel major arg bs h = omega (arith, length-append (argument_bytes arg) bs)

mutual
  unfolding decode_value decode_simple decode_items encoded encoded_all IsEncodable AreEncodable
      count

  pub decode_value-encoded :
      {F : Type 0} (fl : Floats F) (fuel : ℕ) (v : Value F) (rest : List ℕ)
      → IsEncodable fl v
      → length (encoded fl v) < fuel
      → decode_value fl fuel (encoded fl v ++ rest) ≡ got v rest
  decode_value-encoded fl zero v rest h le = ground arith
  decode_value-encoded fl (suc fuel) null rest h le = refl
  decode_value-encoded fl (suc fuel) (bool true) rest h le = refl
  decode_value-encoded fl (suc fuel) (bool false) rest h le = refl
  decode_value-encoded fl (suc fuel) (int64 (pos n)) rest h le =
      decode_value-head fl fuel 0 n rest (omega arith) (omega arith)
      ∙ content_0 (decode_value fl fuel) n rest h
  decode_value-encoded fl (suc fuel) (int64 (negsuc n)) rest h le =
      decode_value-head fl fuel 1 n rest (omega arith) (omega arith)
      ∙ content_1 (decode_value fl fuel) n rest h
  decode_value-encoded fl (suc fuel) (uint64 n) rest h le =
      decode_value-head fl fuel 0 n rest (omega arith) h.1
      ∙ content_0_large (decode_value fl fuel) n rest h.0
  decode_value-encoded fl (suc fuel) (float64 x) rest h le =
      ap (λ (r : Read ℕ). then_read r (λ n r'. got (float64 (fl.of_bits n)) r'))
        (fixed_8 truncated_float (fl.bits x) rest h.0)
      ∙ ap (λ y. got (float64 y) rest) h.1
  decode_value-encoded fl (suc fuel) (text s) rest h le =
      ap (decode_value fl (suc fuel)) (append_assoc (head 3 (length s)) s rest)
      ∙ (decode_value-head fl fuel 3 (length s) (s ++ rest) (omega arith) h
          ∙ content_3 (decode_value fl fuel) s rest)
  decode_value-encoded fl (suc fuel) (bytes s) rest h le =
      ap (decode_value fl (suc fuel)) (append_assoc (head 2 (length s)) s rest)
      ∙ (decode_value-head fl fuel 2 (length s) (s ++ rest) (omega arith) h
          ∙ content_2 (decode_value fl fuel) s rest)
  decode_value-encoded fl (suc fuel) (tag n v) rest h le =
      ap (decode_value fl (suc fuel)) (append_assoc (head 6 n) (encoded fl v) rest)
      ∙ (decode_value-head fl fuel 6 n (encoded fl v ++ rest) (omega arith) h.0
          ∙ content_6 (decode_value fl fuel) n v (encoded fl v ++ rest) rest
              (decode_value-encoded fl fuel v rest h.1 (shorter fuel 6 n (encoded fl v) le)))
  decode_value-encoded fl (suc fuel) (array vs) rest h le =
      ap (decode_value fl (suc fuel)) (append_assoc (head 4 (count vs)) (encoded_all fl vs) rest)
      ∙ (decode_value-head fl fuel 4 (count vs) (encoded_all fl vs ++ rest) (omega arith) h.0
          ∙ content_4 (decode_value fl fuel) vs (encoded_all fl vs ++ rest) rest
              (omega (arith, count-le fl vs h.1, length-append (encoded_all fl vs) rest))
              (decode_items-encoded fl fuel vs rest h.1
                (shorter fuel 4 (count vs) (encoded_all fl vs) le)))
  decode_value-encoded fl (suc fuel) (map_of ps) rest h le = elim h [ ]

  decode_items-encoded :
      {F : Type 0} (fl : Floats F) (fuel : ℕ) (vs : Values F) (rest : List ℕ)
      → AreEncodable fl vs
      → length (encoded_all fl vs) < fuel
      → decode_items (decode_value fl fuel) (count vs) (encoded_all fl vs ++ rest) ≡ got vs rest
  decode_items-encoded fl fuel no_values rest h le = refl
  decode_items-encoded fl fuel (value v vs) rest h le =
      rw
        (
          append_assoc (encoded fl v) (encoded_all fl vs) rest,
          decode_value-encoded fl fuel v (encoded_all fl vs ++ rest) h.0
              (omega (arith, length-append (encoded fl v) (encoded_all fl vs))),
          decode_items-encoded fl fuel vs rest h.1
              (omega (arith, length-append (encoded fl v) (encoded_all fl vs))),
        )
        refl

-- The bytes that append_value appends to an empty buffer.
module _ {F : Type 0} (fl : Floats F) where
  -- If no map is in a value, its integers fit their 64 bits and one that fits an int64 is an int64,
  -- its lengths and tags are below 2^64 and the bits of its floats stand for them, then appendValue
  -- succeeds on an empty buffer and Decode makes of the bytes the same value and nothing else.
  pub decode-append_value :
      (v : Value F) → IsEncodable fl v → map (decode fl) (append_value fl [] v) ≡ some (got v [])
  unfolding decode
  decode-append_value v h =
      ap (map (decode fl)) (append_value-encoded fl [] v h)
      ∙ ap (λ (r : Read (Value F)). some (whole fl r))
          (ap (decode_value fl (suc (length (encoded fl v)))) (sym (append-nil (encoded fl v)))
            ∙ decode_value-encoded fl (suc (length (encoded fl v))) v [] h (omega arith))
