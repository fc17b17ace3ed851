-- ===== src/Wire/Cbor.antt =====
-- test/e2e/internal/wire/cbor.go: the CBOR subset of the end-to-end harness, its values and writer.
-- A Go string is the list of its bytes; float64 is a type F with its bits.
use arduino_cloud_connector.Common.{
  ℕ, zero, suc, ◌+◌, ◌-◌, ◌*◌, ◌/◌, ◌%◌, ◌^◌, Bool, Option, none, some, List, [], ◌∷◌, ◌++◌, length,
  leb, ltb, if◌then◌else◌,
}
use arduino_cloud_connector.Common.Integers.{ℤ, pos, negsuc}

-- float64: math.Float64bits and Float64frombits, the value of the bits of a float32, math.Exp2, NaN, Inf(1),
-- Inf(-1) and Copysign(0, -1), and Go's arithmetic.
pub record Floats (F : Type 0) : Type 0 where
  pub bits : F → ℕ
  pub of_bits : ℕ → F
  pub of_float32 : ℕ → F
  pub of_natural : ℕ → F
  pub exp2 : ℤ → F
  pub add : F → F → F
  pub multiply : F → F → F
  pub divide : F → F → F
  pub negated : F → F
  pub nan : F
  pub infinity : F
  pub negative_infinity : F
  pub negative_zero : F

-- What an `any` of this package may hold. A map is the list of its insertions: of two with the same key the later counts.
mutual
  pub data Value (F : Type 0) : Type 0 where
    null : Value F
    bool : Bool → Value F
    int64 : ℤ → Value F
    uint64 : ℕ → Value F
    float64 : F → Value F
    text bytes : List ℕ → Value F
    tag : ℕ → Value F → Value F
    array : Values F → Value F
    map_of : Pairs F → Value F

  pub data Values (F : Type 0) : Type 0 where
    no_values : Values F
    value : Value F → Values F → Values F

  pub data Pairs (F : Type 0) : Type 0 where
    no_pairs : Pairs F
    pair : Value F → Value F → Pairs F → Pairs F

abbrev pub max_int64 : ℕ
max_int64 = 2 ^ 63 - 1

-- major<<5|ai
abbrev pub initial_byte : ℕ → ℕ → ℕ
initial_byte major ai = major * 32 + ai

-- binary.BigEndian: the w low bytes of a number, the most significant first.
abbrev pub big_endian : ℕ → ℕ → List ℕ
big_endian zero n = []
big_endian (suc w) n = (n / 256 ^ w % 256) ∷ big_endian w n

unfoldable pub append_head : List ℕ → ℕ → ℕ → List ℕ
append_head b major arg =
    if ltb arg 24
    then b ++ initial_byte major arg ∷ []
    else if leb arg 0xff
    then b ++ initial_byte major 24 ∷ arg ∷ []
    else if leb arg 0xffff
    then (b ++ initial_byte major 25 ∷ []) ++ big_endian 2 arg
    else if leb arg 0xffffffff
    then (b ++ initial_byte major 26 ∷ []) ++ big_endian 4 arg
    else (b ++ initial_byte major 27 ∷ []) ++ big_endian 8 arg

unfoldable pub append_int : List ℕ → ℤ → List ℕ
append_int b (pos n) = append_head b 0 n
append_int b (negsuc n) = append_head b 1 n

unfoldable pub append_float64 : List ℕ → ℕ → List ℕ
append_float64 b bits = (b ++ initial_byte 7 27 ∷ []) ++ big_endian 8 bits

abbrev pub append_bool : List ℕ → Bool → List ℕ
append_bool b v = if v then b ++ initial_byte 7 21 ∷ [] else b ++ initial_byte 7 20 ∷ []

unfoldable pub append_text : List ℕ → List ℕ → List ℕ
append_text b s = append_head b 3 (length s) ++ s

unfoldable pub append_bytes : List ℕ → List ℕ → List ℕ
append_bytes b v = append_head b 2 (length v) ++ v

module _ {F : Type 0} where
  unfoldable pub count : Values F → ℕ
  count no_values = 0
  count (value v vs) = suc (count vs)

abbrev pub append_next : Option (List ℕ) → (List ℕ → Option (List ℕ)) → Option (List ℕ)
append_next none f = none
append_next (some b) f = f b

unfoldable mutual
  pub append_value : {F : Type 0} → Floats F → List ℕ → Value F → Option (List ℕ)
  append_value fl b (tag n content) = append_value fl (append_head b 6 n) content
  append_value fl b (array vs) = append_values fl (append_head b 4 (count vs)) vs
  append_value fl b (map_of ps) = none
  append_value fl b null = some (b ++ initial_byte 7 22 ∷ [])
  append_value fl b (bool v) = some (append_bool b v)
  append_value fl b (int64 n) = some (append_int b n)
  append_value fl b (uint64 n) = some (append_head b 0 n)
  append_value fl b (float64 x) = some (append_float64 b (fl.bits x))
  append_value fl b (text s) = some (append_text b s)
  append_value fl b (bytes v) = some (append_bytes b v)

  -- The loop over the items; the error of one ends it.
  pub append_values : {F : Type 0} → Floats F → List ℕ → Values F → Option (List ℕ)
  append_values fl b no_values = some b
  append_values fl b (value v vs) = append_next (append_value fl b v) (λ b'. append_values fl b' vs)
