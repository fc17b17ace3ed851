-- ===== src/Wire/Encoded.antt =====
-- cbor.go: the bytes that appendValue appends, for a value that the protocol writes.
use arduino_cloud_connector.Common.{
  ℕ, ◌≤◌, ◌<◌, ◌≡◌, refl, ◌∙◌, ap, sym, true, false, Option, some, List, [], ◌∷◌, ◌++◌, length,
}
use mathlib.Core.List.{append_assoc, append-nil}
use arduino_cloud_connector.Common.Integers.{ℤ, pos, negsuc}
use arduino_cloud_connector.Wire.Cbor.{
  Floats, Value, null, bool, int64, uint64, float64, text, bytes, tag, array, map_of, Values,
  no_values, value, initial_byte, big_endian, append_int, append_float64, append_bool, append_text,
  append_bytes, count, append_value, append_values, append_next, max_int64,
}
use arduino_cloud_connector.Wire.Heads.{head, append_head-head}

-- The bytes of a float of eight bytes stand for it.
abbrev pub IsDouble : {F : Type 0} → Floats F → F → Type 0
IsDouble fl x = (fl.bits x < 18446744073709551616) × (fl.of_bits (fl.bits x) ≡ x)

abbrev pub IsLength : List ℕ → Type 0
IsLength s = length s < 18446744073709551616

-- A value that the protocol writes: no map, and an integer that fits an int64 is one.
abbrev pub IsInt64 : ℤ → Type 0
IsInt64 (pos n) = n ≤ max_int64
IsInt64 (negsuc n) = n ≤ max_int64

unfoldable mutual
  pub IsEncodable : {F : Type 0} → Floats F → Value F → Type 0
  IsEncodable fl null = Unit
  IsEncodable fl (bool v) = Unit
  IsEncodable fl (int64 n) = IsInt64 n
  IsEncodable fl (uint64 n) = (max_int64 < n) × (n < 18446744073709551616)
  IsEncodable fl (float64 x) = IsDouble fl x
  IsEncodable fl (text s) = IsLength s
  IsEncodable fl (bytes v) = IsLength v
  IsEncodable fl (tag n v) = (n < 18446744073709551616) × IsEncodable fl v
  IsEncodable fl (array vs) = (count vs < 18446744073709551616) × AreEncodable fl vs
  IsEncodable fl (map_of ps) = ⊥

  pub AreEncodable : {F : Type 0} → Floats F → Values F → Type 0
  AreEncodable fl no_values = Unit
  AreEncodable fl (value v vs) = IsEncodable fl v × AreEncodable fl vs

-- The bytes of a value by themselves.
unfoldable mutual
  pub encoded : {F : Type 0} → Floats F → Value F → List ℕ
  encoded fl null = initial_byte 7 22 ∷ []
  encoded fl (bool v) = append_bool [] v
  encoded fl (int64 (pos n)) = head 0 n
  encoded fl (int64 (negsuc n)) = head 1 n
  encoded fl (uint64 n) = head 0 n
  encoded fl (float64 x) = initial_byte 7 27 ∷ big_endian 8 (fl.bits x)
  encoded fl (text s) = head 3 (length s) ++ s
  encoded fl (bytes v) = head 2 (length v) ++ v
  encoded fl (tag n v) = head 6 n ++ encoded fl v
  encoded fl (array vs) = head 4 (count vs) ++ encoded_all fl vs
  encoded fl (map_of ps) = []

  pub encoded_all : {F : Type 0} → Floats F → Values F → List ℕ
  encoded_all fl no_values = []
  encoded_all fl (value v vs) = encoded fl v ++ encoded_all fl vs

mutual
  unfolding append_value append_values encoded encoded_all IsEncodable AreEncodable append_int
      append_float64 append_text append_bytes

  pub append_value-encoded :
      {F : Type 0} (fl : Floats F) (b : List ℕ) (v : Value F)
      → IsEncodable fl v
      → append_value fl b v ≡ some (b ++ encoded fl v)
  append_value-encoded fl b null h = refl
  append_value-encoded fl b (bool true) h = refl
  append_value-encoded fl b (bool false) h = refl
  append_value-encoded fl b (int64 (pos n)) h = rw (append_head-head b 0 n) refl
  append_value-encoded fl b (int64 (negsuc n)) h = rw (append_head-head b 1 n) refl
  append_value-encoded fl b (uint64 n) h = rw (append_head-head b 0 n) refl
  append_value-encoded fl b (float64 x) h =
      ap some (append_assoc b (initial_byte 7 27 ∷ []) (big_endian 8 (fl.bits x)))
  append_value-encoded fl b (text s) h =
      rw (append_head-head b 3 (length s)) (ap some (append_assoc b (head 3 (length s)) s))
  append_value-encoded fl b (bytes v) h =
      rw (append_head-head b 2 (length v)) (ap some (append_assoc b (head 2 (length v)) v))
  append_value-encoded fl b (tag n v) h = rw (append_head-head b 6 n) (
      append_value-encoded fl (b ++ head 6 n) v h.1
      ∙ ap some (append_assoc b (head 6 n) (encoded fl v)))
  append_value-encoded fl b (array vs) h = rw (append_head-head b 4 (count vs)) (
      append_values-encoded fl (b ++ head 4 (count vs)) vs h.1
      ∙ ap some (append_assoc b (head 4 (count vs)) (encoded_all fl vs)))
  append_value-encoded fl b (map_of ps) h = elim h [ ]

  append_values-encoded :
      {F : Type 0} (fl : Floats F) (b : List ℕ) (vs : Values F)
      → AreEncodable fl vs
      → append_values fl b vs ≡ some (b ++ encoded_all fl vs)
  append_values-encoded fl b no_values h = ap some (sym (append-nil b))
  append_values-encoded fl b (value v vs) h =
      ap (λ (o : Option (List ℕ)). append_next o (λ b'. append_values fl b' vs))
        (append_value-encoded fl b v h.0)
      ∙ (append_values-encoded fl (b ++ encoded fl v) vs h.1
          ∙ ap some (append_assoc b (encoded fl v) (encoded_all fl vs)))
