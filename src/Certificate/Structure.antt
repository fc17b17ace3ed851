-- ===== src/Certificate/Structure.antt =====
-- compressed_cert.go: the certificate as the elements that X.509 asks for, and buildCert and
-- buildTBS as their encoding.
use arduino_cloud_connector.Common.{
  ℕ, ◌+◌, ◌≤◌, ◌<◌, ◌≡◌, refl, List, [], ◌∷◌, ◌++◌, length, length-append, if◌then◌else◌, Bool,
  true, not, ◌&&◌, ◌==◌, arith, Bool-cases, inl, inr,
}
use mathlib.Core.List.{append_assoc}
use arduino_cloud_connector.Certificate.{
  CertParams, cert_issuer, subject_of, append_validity, append_extensions, validity_length,
}
use arduino_cloud_connector.Common.Integers.{pos}
use arduino_cloud_connector.Certificate.Elements.{Element, encode, encode_all}
use arduino_cloud_connector.Certificate.Layout.{
  encode-short, small_byte, ecdsa_with_sha256, ec_public_key, prime256v1, extension_content,
  extension-encode,
}
use arduino_cloud_connector.Certificate.Names.{IsName, name_content, length-name_content}
use arduino_cloud_connector.Certificate.Dates.{
  time_tag, time_content, date-encode, length-encode_time,
}
use arduino_cloud_connector.Certificate.Numbers.{signature_content}
use arduino_cloud_connector.Certificate.Primitives.{name_length, der_integer, authority_key_id_set}

-- The parameters that reconstructDeviceCert passes, issued at a time of the years 2000 to 9999.
pub record IsParams (p : CertParams) (year month day hour : ℕ) : Type 0 where
  pub public_key : length p.public_key ≡ 64
  pub device_set : 0 < length p.device_id
  pub device_short : length p.device_id < 119
  pub serial_set : 0 < length p.serial
  pub serial_short : length p.serial < 127
  pub auth_key_id : length p.auth_key_id ≡ 20
  pub year_is : p.issue_year ≡ pos year
  pub month_is : p.issue_month ≡ pos month
  pub day_is : p.issue_day ≡ pos day
  pub hour_is : p.issue_hour ≡ pos hour
  pub from_2000 : 2000 ≤ year
  pub to_9999 : year + p.expire_years < 10000
  pub month_short : month < 100
  pub day_short : day < 100
  pub hour_short : hour < 100

abbrev pub validity_content : ℕ → ℕ → ℕ → ℕ → ℕ → List ℕ
validity_content year years month day hour =
    encode (time_tag year) (time_content year month day hour)
    ++ encode (time_tag (year + years)) (time_content (year + years) month day hour)

abbrev pub all_zero : List ℕ → Bool
all_zero [] = true
all_zero (b ∷ bs) = b == 0 && all_zero bs

-- The extension with the key id; for a key id of zeros alone an empty list of extensions.
abbrev pub extensions_content : List ℕ → List ℕ
extensions_content auth_key_id =
    if all_zero auth_key_id then encode 0x30 [] else extension_content auth_key_id

authority_key_id_set-all_zero : (id : List ℕ) → authority_key_id_set id ≡ not (all_zero id)
unfolding authority_key_id_set
authority_key_id_set-all_zero [] = refl
authority_key_id_set-all_zero (b ∷ bs) = ground (arith, authority_key_id_set-all_zero bs)

abbrev pub key_content : List ℕ → List ℕ
key_content key =
    encode 0x30 (encode 0x06 ec_public_key ++ encode 0x06 prime256v1)
    ++ encode 0x03 (0x00 ∷ 0x04 ∷ key)

-- The fields of a version 3 TBSCertificate.
abbrev pub tbs_elements : CertParams → ℕ → ℕ → ℕ → ℕ → List Element
tbs_elements p year month day hour =
    (0xa0, encode 0x02 (2 ∷ []))
    ∷ (0x02, der_integer p.serial)
    ∷ (0x30, encode 0x06 ecdsa_with_sha256)
    ∷ (0x30, name_content cert_issuer)
    ∷ (0x30, validity_content year p.expire_years month day hour)
    ∷ (0x30, name_content (subject_of p.device_id))
    ∷ (0x30, key_content p.public_key)
    ∷ (0xa3, extensions_content p.auth_key_id)
    ∷ []

abbrev pub cert_elements : CertParams → ℕ → ℕ → ℕ → ℕ → List Element
cert_elements p year month day hour =
    (0x30, encode_all (tbs_elements p year month day hour))
    ∷ (0x30, encode 0x06 ecdsa_with_sha256)
    ∷ (0x03, signature_content p.signature)
    ∷ []

pub issuer-IsName : IsName cert_issuer
issuer-IsName = omega arith

pub subject-IsName : (device_id : List ℕ) → length device_id < 119 → IsName (subject_of device_id)
subject-IsName device_id h = omega arith

pub length-issuer : length (name_content cert_issuer) ≡ 69
unfolding name_length
length-issuer = length-name_content cert_issuer issuer-IsName

pub length-subject :
    (device_id : List ℕ)
    → length device_id < 119
    → length (name_content (subject_of device_id)) < 130
unfolding name_length
length-subject device_id h =
    ground (arith, length-name_content (subject_of device_id) (subject-IsName device_id h))

pub length-validity :
    (year years month day hour : ℕ)
    → length (validity_content year years month day hour)
      ≡ validity_length (pos year) (pos (year + years))
length-validity year years month day hour = ground (
  arith,
  length-append (encode (time_tag year) (time_content year month day hour))
      (encode (time_tag (year + years)) (time_content (year + years) month day hour)),
  length-encode_time year month day hour,
  length-encode_time (year + years) month day hour,
)

pub validity_length-lt : (year year' : ℕ) → validity_length (pos year) (pos year') < 128
validity_length-lt year year' = ground arith

pub validity-encode :
    (buf : List ℕ) (p : CertParams) (year month day hour : ℕ)
    → IsParams p year month day hour
    → append_validity buf p
      ≡ buf ++ encode 0x30 (validity_content year p.expire_years month day hour)
validity-encode buf p year month day hour i =
    let len = validity_length (pos year) (pos (year + p.expire_years)) in
    let len_short = validity_length-lt year (year + p.expire_years) in
    rw
      (
        i.year_is,
        i.month_is,
        i.day_is,
        i.hour_is,
        date-encode _ year month day hour i.from_2000 (omega arith) i.month_short i.day_short
            i.hour_short,
        date-encode _ (year + p.expire_years) month day hour (omega arith) i.to_9999 i.month_short
            i.day_short i.hour_short,
        encode-short 0x30 len (validity_content year p.expire_years month day hour)
            (length-validity year p.expire_years month day hour) len_short,
        small_byte len (omega arith),
      )
      (simp append_assoc)

pub extensions-encode :
    (buf id : List ℕ)
    → length id ≡ 20
    → append_extensions buf id ≡ buf ++ encode 0xa3 (extensions_content id)
extensions-encode buf id h = elim (Bool-cases (all_zero id)) [
  | inr set ↦ rw (authority_key_id_set-all_zero id, set) (extension-encode buf id h)
  | inl unset ↦
      rw
        (
          authority_key_id_set-all_zero id,
          unset,
          encode-short 0x30 0 [] refl (omega arith),
          encode-short 0xa3 2 (0x30 ∷ 0x00 ∷ []) refl (omega arith),
        )
        refl
]
