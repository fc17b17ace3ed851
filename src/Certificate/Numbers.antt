-- ===== src/Certificate/Numbers.antt =====
-- compressed_cert.go: derInteger, and the elements of the serial number and of the signature.
use arduino_cloud_connector.Common.{
  ℕ, zero, suc, ◌+◌, ◌*◌, ◌^◌, ◌≤◌, ◌<◌, ◌≡◌, ◌≢◌, refl, true, List, [], ◌∷◌, ◌++◌, ◌∙◌, length,
  length-append, All, take, drop, ◌==◌, arith, Bool-cases, inl, inr,
}
use mathlib.Core.List.{append_assoc}
use arduino_cloud_connector.Certificate.Elements.{encode, length-encode}
use arduino_cloud_connector.Certificate.Layout.{
  encode-short, small_byte, algorithm-encode, ecdsa_with_sha256,
}
use arduino_cloud_connector.Certificate.Primitives.{
  append_serial_number, append_signature, has_top_bit, der_integer, append_stripped, strip_zeros,
  with_sign_byte, strip_but_last,
}

abbrev pub IsByte : ℕ → Type 0
IsByte b = b < 256

-- The number whose bytes these are, the most significant first.
unfoldable pub big_endian : List ℕ → ℕ
big_endian [] = 0
big_endian (b ∷ bs) = b * 256 ^ length bs + big_endian bs

-- The content of a non-negative INTEGER (X.690, 8.3): the sign bit is 0, and the first byte is 0
-- only where the sign bit needs it.
abbrev pub IsInteger : List ℕ → Type 0
IsInteger [] = ⊥
IsInteger (b ∷ []) = b < 128
IsInteger (b ∷ c ∷ bs) = (b < 128) × (b ≡ 0 → 128 ≤ c)

strip_but_last-big_endian : (bs : List ℕ) → big_endian (strip_but_last bs) ≡ big_endian bs
unfolding strip_but_last big_endian
strip_but_last-big_endian [] = refl
strip_but_last-big_endian (b ∷ []) = refl
strip_but_last-big_endian (b ∷ c ∷ bs) = ground (arith, strip_but_last-big_endian (c ∷ bs))

with_sign_byte-big_endian : (bs : List ℕ) → big_endian (with_sign_byte bs) ≡ big_endian bs
unfolding big_endian
with_sign_byte-big_endian [] = refl
with_sign_byte-big_endian (b ∷ bs) = ground arith

-- A non-empty list whose first byte is not 0, unless it is the only one.
abbrev IsStripped : List ℕ → Type 0
IsStripped [] = ⊥
IsStripped (b ∷ []) = b < 256
IsStripped (b ∷ c ∷ bs) = (b < 256) × (b ≢ 0)

strip_but_last-IsStripped :
    (b : ℕ) (bs : List ℕ) → All IsByte (b ∷ bs) → IsStripped (strip_but_last (b ∷ bs))
unfolding strip_but_last
strip_but_last-IsStripped b [] h = h.0
strip_but_last-IsStripped b (c ∷ bs) h = elim (Bool-cases (b == 0)) [
  | inl z ↦ rw z (strip_but_last-IsStripped c bs h.1)
  | inr z ↦ rw z (h.0, ground arith)
]

with_sign_byte-IsInteger : (bs : List ℕ) → IsStripped bs → IsInteger (with_sign_byte bs)
with_sign_byte-IsInteger [] h = elim h [ ]
with_sign_byte-IsInteger (b ∷ []) h = elim (Bool-cases (has_top_bit b)) [
  | inl top ↦ rw top (ground arith)
  | inr low ↦ rw low (ground arith)
]
with_sign_byte-IsInteger (b ∷ c ∷ bs) h = elim (Bool-cases (has_top_bit b)) [
  | inl top ↦ rw top (omega arith, λ z. ground arith)
  | inr low ↦ rw low (ground arith, λ z. elim (h.1 z) [ ])
]

==→eq : (a b : ℕ) → (a == b) ≡ true → a ≡ b
==→eq a b h = ground arith

-- For a non-empty list of bytes, derInteger keeps the number that they stand for and gives the one
-- content of a non-negative INTEGER that the encoding rules allow: the sign bit is 0, and a first
-- byte of 0 only where the second byte has its top bit.
pub der_integer_lem :
    (bs : List ℕ)
    → 0 < length bs
    → All IsByte bs
    → IsInteger (der_integer bs) × (big_endian (der_integer bs) ≡ big_endian bs)
unfolding der_integer
der_integer_lem [] h bytes = ground arith
der_integer_lem (b ∷ bs) h bytes = (
  with_sign_byte-IsInteger (strip_but_last (b ∷ bs)) (strip_but_last-IsStripped b bs bytes),
  with_sign_byte-big_endian (strip_but_last (b ∷ bs)) ∙ strip_but_last-big_endian (b ∷ bs),
)

length-strip_but_last : (bs : List ℕ) → length (strip_but_last bs) ≤ length bs
unfolding strip_but_last
length-strip_but_last [] = omega arith
length-strip_but_last (b ∷ []) = omega arith
length-strip_but_last (b ∷ c ∷ bs) = ground (arith, length-strip_but_last (c ∷ bs))

length-with_sign_byte : (bs : List ℕ) → length (with_sign_byte bs) ≤ length bs + 1
length-with_sign_byte [] = omega arith
length-with_sign_byte (b ∷ bs) = ground arith

pub length-der_integer : (bs : List ℕ) → length (der_integer bs) ≤ length bs + 1
unfolding der_integer
length-der_integer bs =
    omega (arith, length-strip_but_last bs, length-with_sign_byte (strip_but_last bs))

append_stripped-encode :
    (buf : List ℕ) (b : ℕ) (bs : List ℕ)
    → length (b ∷ bs) < 127
    → append_stripped buf (b ∷ bs) ≡ buf ++ encode 0x02 (with_sign_byte (b ∷ bs))
append_stripped-encode buf b bs h = elim (Bool-cases (has_top_bit b)) [
  | inl top ↦
      rw
        (
          top,
          encode-short 0x02 (length (b ∷ bs) + 1) (0x00 ∷ b ∷ bs) (omega arith) (omega arith),
          small_byte (length (b ∷ bs) + 1) (omega arith),
        )
        (simp append_assoc)
  | inr low ↦
      rw
        (
          low,
          encode-short 0x02 (length (b ∷ bs)) (b ∷ bs) refl (omega arith),
          small_byte (length (b ∷ bs)) (omega arith),
        )
        (simp append_assoc)
]

strip_zeros-strip_but_last :
    (buf : List ℕ) (b : ℕ) (bs : List ℕ)
    → length (b ∷ bs) < 127
    → append_stripped buf (strip_zeros (b ∷ bs))
      ≡ buf ++ encode 0x02 (with_sign_byte (strip_but_last (b ∷ bs)))
unfolding strip_zeros strip_but_last
strip_zeros-strip_but_last buf b [] h = elim (Bool-cases (b == 0)) [
  | inl z ↦ rw (z, ==→eq b 0 z, encode-short 0x02 1 (0x00 ∷ []) refl (omega arith)) refl
  | inr z ↦ rw z (append_stripped-encode buf b [] h)
]
strip_zeros-strip_but_last buf b (c ∷ bs) h = elim (Bool-cases (b == 0)) [
  | inl z ↦ rw z (strip_zeros-strip_but_last buf c bs (omega arith))
  | inr z ↦ rw z (append_stripped-encode buf b (c ∷ bs) h)
]

-- appendSerialNumber goes another way to the content that derInteger gives.
pub serial-encode :
    (buf serial : List ℕ)
    → 0 < length serial
    → length serial < 127
    → append_serial_number buf serial ≡ buf ++ encode 0x02 (der_integer serial)
unfolding append_serial_number der_integer
serial-encode buf [] h h' = ground arith
serial-encode buf (b ∷ bs) h h' = strip_zeros-strip_but_last buf b bs h'

pub length-take : (n : ℕ) (bs : List ℕ) → length (take n bs) ≤ n
length-take zero bs = omega arith
length-take (suc n) [] = omega arith
length-take (suc n) (b ∷ bs) = omega (arith, length-take n bs)

-- r and s of the signature
abbrev pub r_of : List ℕ → List ℕ
r_of signature = der_integer (take 32 signature)

abbrev pub s_of : List ℕ → List ℕ
s_of signature = der_integer (take 32 (drop 32 signature))

abbrev pub signature_content : List ℕ → List ℕ
signature_content signature =
    0x00 ∷ encode 0x30 (encode 0x02 (r_of signature) ++ encode 0x02 (s_of signature))

length-r_of : (signature : List ℕ) → length (r_of signature) ≤ 33
length-r_of signature =
    omega (arith, length-take 32 signature, length-der_integer (take 32 signature))

pub signature-encode :
    (buf signature : List ℕ)
    → append_signature buf signature
      ≡ buf
        ++ encode 0x30 (encode 0x06 ecdsa_with_sha256)
        ++ encode 0x03 (signature_content signature)
unfolding append_signature
signature-encode buf signature =
    let r = r_of signature in
    let s = s_of signature in
    let r_short = length-r_of signature in
    let s_short = length-r_of (drop 32 signature) in
    rw
      (
        algorithm-encode buf,
        encode-short 0x02 (length r) r refl (omega arith),
        encode-short 0x02 (length s) s refl (omega arith),
        encode-short 0x30 (length r + length s + 4) (0x02 ∷ length r ∷ r ++ 0x02 ∷ length s ∷ s)
            (omega (arith, length-append r (0x02 ∷ length s ∷ s))) (omega arith),
        encode-short 0x03 (length r + length s + 7)
            (0x00 ∷ 0x30 ∷ (length r + length s + 4) ∷ 0x02 ∷ length r ∷ r ++ 0x02 ∷ length s ∷ s)
            (omega (arith, length-append r (0x02 ∷ length s ∷ s))) (omega arith),
        small_byte (length r) (omega arith),
        small_byte (length s) (omega arith),
        small_byte (length r + length s + 4) (omega arith),
        small_byte (length r + length s + 7) (omega arith),
      )
      (simp append_assoc)

pub length-signature_content : (signature : List ℕ) → length (signature_content signature) < 90
length-signature_content signature =
    let rs = encode 0x02 (r_of signature) ++ encode 0x02 (s_of signature) in
    omega (
      arith,
      length-r_of signature,
      length-r_of (drop 32 signature),
      length-encode 0x30 rs,
      length-append (encode 0x02 (r_of signature)) (encode 0x02 (s_of signature)),
      length-encode 0x02 (r_of signature),
      length-encode 0x02 (s_of signature),
    )
