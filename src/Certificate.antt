-- ===== src/Certificate.antt =====
-- internal/provisioning-api/compressed_cert.go: the device certificate that is built again from
-- its variable parts. Bytes are numbers, and a Go string is the list of its bytes.
pub mod Primitives
pub mod Elements
pub mod Layout
mod Names
mod Dates
mod Numbers
mod Structure
pub mod Encoding
pub mod Text
pub mod Response
pub mod Fields
pub mod RoundTrip
pub mod Issued
pub mod Accepted
pub mod Examples
use arduino_cloud_connector.Common.{ℕ, ◌+◌, ◌%◌, List, [], ◌∷◌, ◌++◌, length, if◌then◌else◌}
use arduino_cloud_connector.Common.Integers.{ℤ, plus, greater}
use arduino_cloud_connector.Certificate.Primitives.{
  CertName, asn1_sequence, append_sequence_header, name_length, append_name, append_serial_number,
  append_date, append_public_key, append_ecdsa_with_sha256, append_authority_key_id,
  authority_key_id_set, append_signature,
}

-- "US", "Arduino LLC US", "IT", "Arduino"
abbrev pub cert_issuer : CertName
cert_issuer = record {
  country = b'U' ∷ b'S' ∷ [];
  state = [];
  locality = [];
  org =
      b'A' ∷ b'r' ∷ b'd' ∷ b'u' ∷ b'i' ∷ b'n' ∷ b'o' ∷ b' ' ∷ b'L' ∷ b'L' ∷ b'C' ∷ b' ' ∷ b'U'
      ∷ b'S' ∷ [];
  org_unit = b'I' ∷ b'T' ∷ [];
  common_name = b'A' ∷ b'r' ∷ b'd' ∷ b'u' ∷ b'i' ∷ b'n' ∷ b'o' ∷ [];
}

pub record CertParams : Type 0 where
  pub public_key : List ℕ
  pub device_id : List ℕ
  pub serial : List ℕ
  pub auth_key_id : List ℕ
  pub signature : List ℕ
  pub issue_year : ℤ
  pub issue_month : ℤ
  pub issue_day : ℤ
  pub issue_hour : ℤ
  pub expire_years : ℕ

-- valLen of buildTBS
abbrev pub validity_length : ℤ → ℤ → ℕ
validity_length issue_year not_after_year =
    30 + (if greater issue_year 2049 then 2 else 0) + (if greater not_after_year 2049 then 2 else 0)

abbrev pub subject_of : List ℕ → CertName
subject_of device_id = record {
  country = [];
  state = [];
  locality = [];
  org = [];
  org_unit = [];
  common_name = device_id;
}

abbrev pub append_validity : List ℕ → CertParams → List ℕ
append_validity buf p =
    let not_after_year = plus p.issue_year p.expire_years in
    let buf' = buf ++ asn1_sequence ∷ (validity_length p.issue_year not_after_year % 256) ∷ [] in
    append_date (append_date buf' p.issue_year p.issue_month p.issue_day p.issue_hour)
      not_after_year p.issue_month p.issue_day p.issue_hour

abbrev pub append_extensions : List ℕ → List ℕ → List ℕ
append_extensions buf auth_key_id =
    if authority_key_id_set auth_key_id
    then append_authority_key_id buf auth_key_id
    else buf ++ 0xa3 ∷ 0x02 ∷ 0x30 ∷ 0x00 ∷ []

-- inner of buildTBS, in the order in which the code appends to it
unfoldable pub tbs_inner : CertParams → List ℕ
tbs_inner p =
    let subject = subject_of p.device_id in
    let inner = 0xa0 ∷ 0x03 ∷ 0x02 ∷ 0x01 ∷ 0x02 ∷ [] in
    let serial = append_serial_number inner p.serial in
    let algorithm = append_ecdsa_with_sha256 serial in
    let issuer =
      append_name (append_sequence_header algorithm (name_length cert_issuer)) cert_issuer in
    let validity = append_validity issuer p in
    let named = append_name (append_sequence_header validity (name_length subject)) subject in
    append_extensions (append_public_key named p.public_key) p.auth_key_id

unfoldable pub build_tbs : CertParams → List ℕ
build_tbs p = let inner = tbs_inner p in append_sequence_header [] (length inner) ++ inner

unfoldable pub build_cert : CertParams → List ℕ
build_cert p =
    let tbs = build_tbs p in
    let sig = append_signature [] p.signature in
    (append_sequence_header [] (length tbs + length sig) ++ tbs) ++ sig
