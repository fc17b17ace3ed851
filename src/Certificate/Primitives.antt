-- ===== src/Certificate/Primitives.antt =====
-- compressed_cert.go: the names, and the ASN.1 primitives that append to a buffer.
use arduino_cloud_connector.Common.{
  ℕ, ◌+◌, ◌/◌, ◌%◌, Bool, false, ◌||◌, not, List, [], ◌∷◌, ◌++◌, length, ltb, ◌==◌, take, drop,
  if◌then◌else◌,
}
use arduino_cloud_connector.Common.Integers.{ℤ, plus, minus, quotient, remainder, greater, byte_of}

pub record CertName : Type 0 where
  pub country : List ℕ
  pub state : List ℕ
  pub locality : List ℕ
  pub org : List ℕ
  pub org_unit : List ℕ
  pub common_name : List ℕ

abbrev pub asn1_integer : ℕ
asn1_integer = 0x02

abbrev pub asn1_bit_string : ℕ
asn1_bit_string = 0x03

abbrev pub asn1_object_identifier : ℕ
asn1_object_identifier = 0x06

abbrev pub asn1_printable_string : ℕ
asn1_printable_string = 0x13

abbrev pub asn1_sequence : ℕ
asn1_sequence = 0x30

abbrev pub asn1_set : ℕ
asn1_set = 0x31

-- b&0x80 != 0
abbrev pub has_top_bit : ℕ → Bool
has_top_bit b = b / 128 % 2 == 1

unfoldable pub append_sequence_header : List ℕ → ℕ → List ℕ
append_sequence_header buf len =
    let buf' = buf ++ asn1_sequence ∷ [] in
    if ltb 255 len
    then buf' ++ 0x82 ∷ (len / 256 % 256) ∷ (len % 256) ∷ []
    else if ltb 127 len
    then buf' ++ 0x81 ∷ (len % 256) ∷ []
    else buf' ++ (len % 256) ∷ []

-- What a field adds to certName.length.
abbrev pub field_length : List ℕ → ℕ
field_length f = if ltb 0 (length f) then 11 + length f else 0

unfoldable pub name_length : CertName → ℕ
name_length n =
    field_length n.country
    + field_length n.state
    + field_length n.locality
    + field_length n.org
    + field_length n.org_unit
    + field_length n.common_name

-- The closure `emit` of appendName.
unfoldable pub emit : List ℕ → List ℕ → ℕ → List ℕ
emit buf value typ =
    let l = length value in
    if l == 0
    then buf
    else ((((buf ++ asn1_set ∷ ((l + 9) % 256) ∷ []) ++ asn1_sequence ∷ ((l + 7) % 256) ∷ [])
          ++ asn1_object_identifier ∷ 0x03 ∷ 0x55 ∷ 0x04 ∷ typ ∷ [])
        ++ asn1_printable_string ∷ (l % 256) ∷ [])
      ++ value

unfoldable pub append_name : List ℕ → CertName → List ℕ
append_name buf n =
    let buf1 = emit buf n.country 0x06 in
    let buf2 = emit buf1 n.state 0x08 in
    let buf3 = emit buf2 n.locality 0x07 in
    let buf4 = emit buf3 n.org 0x0a in
    let buf5 = emit buf4 n.org_unit 0x0b in emit buf5 n.common_name 0x03

-- for len(s) > 0 && s[0] == 0x00 { s = s[1:] }
unfoldable pub strip_zeros : List ℕ → List ℕ
strip_zeros [] = []
strip_zeros (b ∷ s) = let stripped = strip_zeros s in if b == 0 then stripped else b ∷ s

-- The first byte and the rest of the stripped serial.
abbrev pub append_stripped : List ℕ → List ℕ → List ℕ
append_stripped buf [] = buf ++ asn1_integer ∷ 0x01 ∷ 0x00 ∷ []
append_stripped buf (b ∷ s) =
    let buf' = buf ++ asn1_integer ∷ [] in
    let len = length (b ∷ s) in
    (if has_top_bit b then buf' ++ ((len + 1) % 256) ∷ 0x00 ∷ [] else buf' ++ (len % 256) ∷ [])
    ++ b ∷ s

unfoldable pub append_serial_number : List ℕ → List ℕ → List ℕ
append_serial_number buf serial = append_stripped buf (strip_zeros serial)

-- byte('0'+n)
abbrev pub digit : ℤ → ℕ
digit n = byte_of (plus n b'0')

abbrev pub two_digits : ℤ → List ℕ
two_digits n = digit (quotient n 10) ∷ digit (remainder n 10) ∷ []

abbrev pub append_year : List ℕ → ℤ → List ℕ
append_year buf year =
    if greater year 2049
    then (buf ++ 0x18 ∷ 0x0f ∷ [])
      ++ digit (quotient year 1000)
        ∷ digit (quotient (remainder year 1000) 100)
        ∷ digit (quotient (remainder year 100) 10)
        ∷ digit (remainder year 10)
        ∷ []
    else (let y = minus year 2000 in (buf ++ 0x17 ∷ 0x0d ∷ []) ++ two_digits y)

unfoldable pub append_date : List ℕ → ℤ → ℤ → ℤ → ℤ → List ℕ
append_date buf year month day hour =
    (((((append_year buf year ++ two_digits month) ++ two_digits day) ++ two_digits hour)
        ++ b'0' ∷ b'0' ∷ [])
      ++ b'0' ∷ b'0' ∷ [])
    ++ 0x5a ∷ []

unfoldable pub append_public_key : List ℕ → List ℕ → List ℕ
append_public_key buf public_key =
    (((((buf ++ asn1_sequence ∷ (2 + 9 + 10 + 4 + 64) ∷ []) ++ asn1_sequence ∷ 0x13 ∷ [])
          ++ asn1_object_identifier ∷ 0x07 ∷ 0x2a ∷ 0x86 ∷ 0x48 ∷ 0xce ∷ 0x3d ∷ 0x02 ∷ 0x01 ∷ [])
        ++ asn1_object_identifier ∷ 0x08 ∷ 0x2a ∷ 0x86 ∷ 0x48 ∷ 0xce ∷ 0x3d ∷ 0x03 ∷ 0x01 ∷ 0x07
          ∷ [])
      ++ asn1_bit_string ∷ 0x42 ∷ 0x00 ∷ 0x04 ∷ [])
    ++ public_key

unfoldable pub append_ecdsa_with_sha256 : List ℕ → List ℕ
append_ecdsa_with_sha256 buf =
    buf
    ++ asn1_sequence ∷ 0x0a ∷ asn1_object_identifier ∷ 0x08 ∷ 0x2a ∷ 0x86 ∷ 0x48 ∷ 0xce ∷ 0x3d
      ∷ 0x04 ∷ 0x03 ∷ 0x02 ∷ []

unfoldable pub append_authority_key_id : List ℕ → List ℕ → List ℕ
append_authority_key_id buf auth_key_id =
    (((((((buf ++ 0xa3 ∷ 0x23 ∷ []) ++ asn1_sequence ∷ 0x21 ∷ []) ++ asn1_sequence ∷ 0x1f ∷ [])
            ++ asn1_object_identifier ∷ 0x03 ∷ 0x55 ∷ 0x1d ∷ 0x23 ∷ [])
          ++ 0x04 ∷ 0x18 ∷ [])
        ++ asn1_sequence ∷ 0x16 ∷ [])
      ++ 0x80 ∷ 0x14 ∷ [])
    ++ auth_key_id

unfoldable pub authority_key_id_set : List ℕ → Bool
authority_key_id_set [] = false
authority_key_id_set (b ∷ bs) = not (b == 0) || authority_key_id_set bs

-- v of derInteger: the zeros in front are dropped, but never the last byte.
unfoldable pub strip_but_last : List ℕ → List ℕ
strip_but_last [] = []
strip_but_last (b ∷ []) = b ∷ []
strip_but_last (b ∷ c ∷ bs) = let v = strip_but_last (c ∷ bs) in if b == 0 then v else b ∷ c ∷ bs

abbrev pub with_sign_byte : List ℕ → List ℕ
with_sign_byte [] = []
with_sign_byte (b ∷ bs) = if has_top_bit b then 0x00 ∷ b ∷ bs else b ∷ bs

-- The code panics on an empty b, which appendSignature never passes.
unfoldable pub der_integer : List ℕ → List ℕ
der_integer b = with_sign_byte (strip_but_last b)

-- signature[0:32] and signature[32:64] are in range, since the signature has 64 bytes.
unfoldable pub append_signature : List ℕ → List ℕ → List ℕ
append_signature buf signature =
    let r = der_integer (take 32 signature) in
    let s = der_integer (take 32 (drop 32 signature)) in
    ((((((append_ecdsa_with_sha256 buf
                ++ asn1_bit_string ∷ ((length r + length s + 7) % 256) ∷ 0x00 ∷ [])
              ++ asn1_sequence ∷ ((length r + length s + 4) % 256) ∷ [])
            ++ asn1_integer ∷ (length r % 256) ∷ [])
          ++ r)
        ++ asn1_integer ∷ (length s % 256) ∷ [])
      ++ s)
