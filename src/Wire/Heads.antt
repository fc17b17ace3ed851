-- ===== src/Wire/Heads.antt =====
-- cbor.go: what appendHead writes, decodeValue reads as the same major type and argument.
use arduino_cloud_connector.Common.{
  ℕ, suc, ◌/◌, ◌%◌, ◌<◌, ◌≡◌, refl, ◌∙◌, ap, List, [], ◌∷◌, ◌++◌, leb, ltb, if◌then◌else◌,
  Bool-cases, inl, inr, arith,
}
use mathlib.Core.List.{append_assoc}
use arduino_cloud_connector.Wire.Cbor.{Floats, append_head, initial_byte, big_endian}
use arduino_cloud_connector.Wire.Decode.{
  Read, Error, got, then_read, number, fixed_argument, decode_arg, decode_content, decode_value,
  truncated_argument,
}

-- The bytes after the initial one, and the additional information in that.
abbrev pub argument_bytes : ℕ → List ℕ
argument_bytes arg =
    if ltb arg 24
    then []
    else if leb arg 0xff
    then arg ∷ []
    else if leb arg 0xffff
    then big_endian 2 arg
    else if leb arg 0xffffffff
    then big_endian 4 arg
    else big_endian 8 arg

abbrev pub information : ℕ → ℕ
information arg =
    if ltb arg 24
    then arg
    else if leb arg 0xff
    then 24
    else if leb arg 0xffff
    then 25
    else if leb arg 0xffffffff
    then 26
    else 27

abbrev pub head : ℕ → ℕ → List ℕ
head major arg = initial_byte major (information arg) ∷ argument_bytes arg

pub append_head-head : (b : List ℕ) (major arg : ℕ) → append_head b major arg ≡ b ++ head major arg
unfolding append_head
append_head-head b major arg = ground (
  arith,
  append_assoc b (initial_byte major 25 ∷ []) (big_endian 2 arg),
  append_assoc b (initial_byte major 26 ∷ []) (big_endian 4 arg),
  append_assoc b (initial_byte major 27 ∷ []) (big_endian 8 arg),
)

two_bytes : (n : ℕ) → n < 65536 → number 0 (big_endian 2 n) ≡ n
two_bytes n h = omega arith

four_bytes : (n : ℕ) → n < 4294967296 → number 0 (big_endian 4 n) ≡ n
four_bytes n h = omega arith

pub eight_bytes : (n : ℕ) → n < 18446744073709551616 → number 0 (big_endian 8 n) ≡ n
eight_bytes n h = omega arith

fixed_2 :
    (e : Error) (n : ℕ) (rest : List ℕ)
    → n < 65536
    → fixed_argument e 2 (big_endian 2 n ++ rest) ≡ got n rest
unfolding fixed_argument
fixed_2 e n rest h = ground (arith, two_bytes n h)

fixed_4 :
    (e : Error) (n : ℕ) (rest : List ℕ)
    → n < 4294967296
    → fixed_argument e 4 (big_endian 4 n ++ rest) ≡ got n rest
unfolding fixed_argument
fixed_4 e n rest h = ground (arith, four_bytes n h)

pub fixed_8 :
    (e : Error) (n : ℕ) (rest : List ℕ)
    → n < 18446744073709551616
    → fixed_argument e 8 (big_endian 8 n ++ rest) ≡ got n rest
unfolding fixed_argument
fixed_8 e n rest h = ground (arith, eight_bytes n h)

fixed_1 : (e : Error) (n : ℕ) (rest : List ℕ) → fixed_argument e 1 (n ∷ rest) ≡ got n rest
unfolding fixed_argument
fixed_1 e n rest = ground arith

decode_arg-argument :
    (n : ℕ) (rest : List ℕ)
    → n < 18446744073709551616
    → decode_arg (information n) (argument_bytes n ++ rest) ≡ got n rest
unfolding decode_arg
decode_arg-argument n rest h = elim (Bool-cases (ltb n 24)) [
  | inl c ↦ rw c (rw c refl)
  | inr c ↦ rw c (elim (Bool-cases (leb n 0xff)) [
    | inl d ↦ rw d (fixed_1 truncated_argument n rest)
    | inr d ↦ rw d (elim (Bool-cases (leb n 0xffff)) [
      | inl e ↦ rw e (fixed_2 truncated_argument n rest (ground arith))
      | inr e ↦ rw e (elim (Bool-cases (leb n 0xffffffff)) [
        | inl f ↦ rw f (fixed_4 truncated_argument n rest (ground arith))
        | inr f ↦ rw f (fixed_8 truncated_argument n rest h)
      ])
    ])
  ])
]

information-lt : (n : ℕ) → information n < 28
information-lt n = ground arith

module _ {F : Type 0} (fl : Floats F) where
  decode_value-argument :
      (fuel b major ai : ℕ) (bs : List ℕ)
      → b / 32 ≡ major
      → b % 32 ≡ ai
      → major < 7
      → ai < 28
      → decode_value fl (suc fuel) (b ∷ bs)
        ≡ then_read (decode_arg ai bs) (decode_content (decode_value fl fuel) major)
  unfolding decode_value
  decode_value-argument fuel b major ai bs d r m i = rw (d, r) (ground arith)

  pub decode_value-head :
      (fuel major arg : ℕ) (rest : List ℕ)
      → major < 7
      → arg < 18446744073709551616
      → decode_value fl (suc fuel) (head major arg ++ rest)
        ≡ decode_content (decode_value fl fuel) major arg rest
  decode_value-head fuel major arg rest m h =
      decode_value-argument fuel (initial_byte major (information arg)) major (information arg)
        (argument_bytes arg ++ rest) (omega (arith, information-lt arg))
        (omega (arith, information-lt arg)) m (information-lt arg)
      ∙ ap (λ (r : Read ℕ). then_read r (decode_content (decode_value fl fuel) major))
          (decode_arg-argument arg rest h)
