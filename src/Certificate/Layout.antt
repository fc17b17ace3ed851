-- ===== src/Certificate/Layout.antt =====
-- compressed_cert.go: each primitive appends one element of the Distinguished Encoding Rules.
use arduino_cloud_connector.Common.{
  ℕ, ◌/◌, ◌%◌, ◌<◌, ◌≡◌, refl, List, [], ◌∷◌, ◌++◌, length, length-append, arith,
}
use mathlib.Core.List.{append_assoc}
use arduino_cloud_connector.Certificate.Elements.{encode, encode_length, length-encode}
use arduino_cloud_connector.Certificate.Primitives.{
  append_sequence_header, append_public_key, append_ecdsa_with_sha256, append_authority_key_id,
}

-- ecdsa-with-SHA256, id-ecPublicKey, prime256v1, authorityKeyIdentifier
abbrev pub ecdsa_with_sha256 : List ℕ
ecdsa_with_sha256 = 0x2a ∷ 0x86 ∷ 0x48 ∷ 0xce ∷ 0x3d ∷ 0x04 ∷ 0x03 ∷ 0x02 ∷ []

abbrev pub ec_public_key : List ℕ
ec_public_key = 0x2a ∷ 0x86 ∷ 0x48 ∷ 0xce ∷ 0x3d ∷ 0x02 ∷ 0x01 ∷ []

abbrev pub prime256v1 : List ℕ
prime256v1 = 0x2a ∷ 0x86 ∷ 0x48 ∷ 0xce ∷ 0x3d ∷ 0x03 ∷ 0x01 ∷ 0x07 ∷ []

abbrev pub authority_key_identifier : List ℕ
authority_key_identifier = 0x55 ∷ 0x1d ∷ 0x23 ∷ []

sequence_header-encode_length :
    (buf : List ℕ) (n : ℕ)
    → n < 65536
    → append_sequence_header buf n ≡ buf ++ 0x30 ∷ encode_length n
unfolding append_sequence_header encode_length
sequence_header-encode_length buf n h = ground (
  arith,
  append_assoc buf (0x30 ∷ []) (n ∷ []),
  append_assoc buf (0x30 ∷ []) (0x81 ∷ n ∷ []),
  append_assoc buf (0x30 ∷ []) (0x82 ∷ (n / 256) ∷ (n % 256) ∷ []),
)

pub header-encode :
    (buf content : List ℕ)
    → length content < 65536
    → append_sequence_header buf (length content) ++ content ≡ buf ++ encode 0x30 content
unfolding encode
header-encode buf content h =
    rw (sequence_header-encode_length buf (length content) h)
      (append_assoc buf (0x30 ∷ encode_length (length content)) content)

-- The short form of the length.
pub encode-short :
    (tag n : ℕ) (content : List ℕ)
    → length content ≡ n
    → n < 128
    → encode tag content ≡ tag ∷ n ∷ content
unfolding encode encode_length
encode-short tag n content h h' = ground arith

pub small_byte : (n : ℕ) → n < 256 → n % 256 ≡ n
small_byte n h = omega arith

pub algorithm-encode :
    (buf : List ℕ)
    → append_ecdsa_with_sha256 buf ≡ buf ++ encode 0x30 (encode 0x06 ecdsa_with_sha256)
unfolding append_ecdsa_with_sha256 encode encode_length
algorithm-encode buf = refl

pub public_key-encode :
    (buf key : List ℕ)
    → length key ≡ 64
    → append_public_key buf key
      ≡ buf
        ++ encode 0x30 (
            encode 0x30 (encode 0x06 ec_public_key ++ encode 0x06 prime256v1)
            ++ encode 0x03 (0x00 ∷ 0x04 ∷ key))
unfolding append_public_key
public_key-encode buf key h =
    rw
      (
        encode-short 0x06 7 ec_public_key refl (omega arith),
        encode-short 0x06 8 prime256v1 refl (omega arith),
        encode-short 0x30 19 (0x06 ∷ 0x07 ∷ ec_public_key ++ 0x06 ∷ 0x08 ∷ prime256v1) refl
            (omega arith),
        encode-short 0x03 66 (0x00 ∷ 0x04 ∷ key) (omega arith) (omega arith),
        encode-short 0x30 89
            (0x30 ∷ 19 ∷ 0x06 ∷ 0x07 ∷ ec_public_key
              ++ 0x06 ∷ 0x08 ∷ prime256v1
              ++ 0x03 ∷ 66 ∷ 0x00 ∷ 0x04 ∷ key)
            (omega arith) (omega arith),
      )
      (simp append_assoc)

-- The content of the authorityKeyIdentifier extension's element.
abbrev pub extension_content : List ℕ → List ℕ
extension_content auth_key_id = encode 0x30 (
    encode 0x30
      (encode 0x06 authority_key_identifier ++ encode 0x04 (encode 0x30 (encode 0x80 auth_key_id))))

pub extension-encode :
    (buf auth_key_id : List ℕ)
    → length auth_key_id ≡ 20
    → append_authority_key_id buf auth_key_id ≡ buf ++ encode 0xa3 (extension_content auth_key_id)
unfolding append_authority_key_id
extension-encode buf id h =
    rw
      (
        encode-short 0x06 3 authority_key_identifier refl (omega arith),
        encode-short 0x80 0x14 id h (omega arith),
        encode-short 0x30 0x16 (0x80 ∷ 0x14 ∷ id) (omega arith) (omega arith),
        encode-short 0x04 0x18 (0x30 ∷ 0x16 ∷ 0x80 ∷ 0x14 ∷ id) (omega arith) (omega arith),
        encode-short 0x30 0x1f
            (0x06 ∷ 0x03 ∷ authority_key_identifier ++ 0x04 ∷ 0x18 ∷ 0x30 ∷ 0x16 ∷ 0x80 ∷ 0x14 ∷ id)
            (omega arith) (omega arith),
        encode-short 0x30 0x21
            (0x30 ∷ 0x1f ∷ 0x06 ∷ 0x03 ∷ authority_key_identifier
              ++ 0x04 ∷ 0x18 ∷ 0x30 ∷ 0x16 ∷ 0x80 ∷ 0x14 ∷ id)
            (omega arith) (omega arith),
        encode-short 0xa3 0x23
            (0x30 ∷ 0x21 ∷ 0x30 ∷ 0x1f ∷ 0x06 ∷ 0x03 ∷ authority_key_identifier
              ++ 0x04 ∷ 0x18 ∷ 0x30 ∷ 0x16 ∷ 0x80 ∷ 0x14 ∷ id)
            (omega arith) (omega arith),
      )
      (simp append_assoc)

pub length-extension_content :
    (auth_key_id : List ℕ) → length auth_key_id ≡ 20 → length (extension_content auth_key_id) < 60
length-extension_content id h =
    let key_id = encode 0x80 id in
    let octets = encode 0x04 (encode 0x30 key_id) in
    let extension = encode 0x06 authority_key_identifier ++ octets in
    omega (
      arith,
      length-encode 0x80 id,
      length-encode 0x30 key_id,
      length-encode 0x04 (encode 0x30 key_id),
      length-append (encode 0x06 authority_key_identifier) octets,
      length-encode 0x06 authority_key_identifier,
      length-encode 0x30 extension,
      length-encode 0x30 (encode 0x30 extension),
    )
