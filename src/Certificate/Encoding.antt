-- ===== src/Certificate/Encoding.antt =====
-- compressed_cert.go: buildTBS and buildCert write the elements of the certificate, and a reader
-- of elements finds each of them.
use arduino_cloud_connector.Common.{
  ℕ, ◌+◌, ◌≤◌, ◌<◌, ◌≡◌, refl, List, [], ◌∷◌, ◌++◌, length, length-append, All, ◌==◌, if◌then◌else◌,
  arith, Option, some, none,
}
use mathlib.Core.List.{append_assoc, append-nil}
use arduino_cloud_connector.Certificate.{
  CertParams, cert_issuer, subject_of, tbs_inner, build_tbs, build_cert,
}
use arduino_cloud_connector.Certificate.Elements.{
  Element, encode, encode_all, IsShort, read_all, read_all-encode, read_all-encode_all,
  length-encode, length-encode_all_cons, length-encode_all-small, small-IsShort,
}
use arduino_cloud_connector.Certificate.Layout.{
  encode-short, header-encode, algorithm-encode, ecdsa_with_sha256, ec_public_key, prime256v1,
  length-extension_content, public_key-encode,
}
use arduino_cloud_connector.Certificate.Names.{name-encode}
use arduino_cloud_connector.Certificate.Numbers.{
  serial-encode, signature-encode, signature_content, length-signature_content, length-der_integer,
}
use arduino_cloud_connector.Certificate.Structure.{
  IsParams, tbs_elements, cert_elements, issuer-IsName, subject-IsName, length-issuer,
  length-subject, length-validity, validity_length-lt, validity-encode, extensions-encode,
  key_content, extensions_content,
}
use arduino_cloud_connector.Certificate.Primitives.{append_signature, append_sequence_header}

tbs_inner-encode_all :
    (p : CertParams) (year month day hour : ℕ)
    → IsParams p year month day hour
    → tbs_inner p ≡ encode_all (tbs_elements p year month day hour)
unfolding tbs_inner encode_all
tbs_inner-encode_all p year month day hour i =
    let subject = length-subject p.device_id i.device_short in
    rw
      (
        serial-encode (0xa0 ∷ 0x03 ∷ 0x02 ∷ 0x01 ∷ 0x02 ∷ []) p.serial i.serial_set i.serial_short,
        algorithm-encode _,
        name-encode _ cert_issuer issuer-IsName (omega (arith, length-issuer)),
        validity-encode _ p year month day hour i,
        name-encode _ (subject_of p.device_id) (subject-IsName p.device_id i.device_short)
            (omega arith),
        public_key-encode _ p.public_key i.public_key,
        extensions-encode _ p.auth_key_id i.auth_key_id,
        encode-short 0x02 1 (2 ∷ []) refl (omega arith),
        encode-short 0xa0 3 (0x02 ∷ 0x01 ∷ 2 ∷ []) refl (omega arith),
      )
      (simp (append_assoc, append-nil))

key-short : (key : List ℕ) → length key ≡ 64 → length (key_content key) < 160
key-short key h = omega (
  arith,
  length-append (encode 0x30 (encode 0x06 ec_public_key ++ encode 0x06 prime256v1))
      (encode 0x03 (0x00 ∷ 0x04 ∷ key)),
  length-encode 0x30 (encode 0x06 ec_public_key ++ encode 0x06 prime256v1),
  length-append (encode 0x06 ec_public_key) (encode 0x06 prime256v1),
  length-encode 0x06 ec_public_key,
  length-encode 0x06 prime256v1,
  length-encode 0x03 (0x00 ∷ 0x04 ∷ key),
)

extension-short : (id : List ℕ) → length id ≡ 20 → length (extensions_content id) < 160
extension-short id h = ground (arith, length-extension_content id h, length-encode 0x30 [])

signature-short : (signature : List ℕ) → length (signature_content signature) < 160
signature-short signature = omega (arith, length-signature_content signature)

tbs_elements-small :
    (p : CertParams) (year month day hour : ℕ)
    → IsParams p year month day hour
    → All (λ e. length e.1 < 160) (tbs_elements p year month day hour)
tbs_elements-small p year month day hour i = (
  omega (arith, length-encode 0x02 (2 ∷ [])),
  (
    omega (arith, length-der_integer p.serial),
    (
      omega (arith, length-encode 0x06 ecdsa_with_sha256),
      (
        omega (arith, length-issuer),
        (
          omega (
            arith,
            length-validity year p.expire_years month day hour,
            validity_length-lt year (year + p.expire_years),
          ),
          (
            omega (arith, length-subject p.device_id i.device_short),
            (
              key-short p.public_key i.public_key,
              (extension-short p.auth_key_id i.auth_key_id, tt),
            ),
          ),
        ),
      ),
    ),
  ),
)

length-tbs :
    (p : CertParams) (year month day hour : ℕ)
    → IsParams p year month day hour
    → length (encode_all (tbs_elements p year month day hour)) ≤ 1312
length-tbs p year month day hour i =
    length-encode_all-small (tbs_elements p year month day hour)
      (tbs_elements-small p year month day hour i)

build_tbs-encode :
    (p : CertParams) (year month day hour : ℕ)
    → IsParams p year month day hour
    → build_tbs p ≡ encode 0x30 (encode_all (tbs_elements p year month day hour))
unfolding build_tbs
build_tbs-encode p year month day hour i = rw (tbs_inner-encode_all p year month day hour i) (
    header-encode [] (encode_all (tbs_elements p year month day hour))
      (omega (arith, length-tbs p year month day hour i)))

pub cert_elements-IsShort :
    (p : CertParams) (year month day hour : ℕ)
    → IsParams p year month day hour
    → All IsShort (cert_elements p year month day hour)
cert_elements-IsShort p year month day hour i = (
  omega (arith, length-tbs p year month day hour i),
  (
    omega (arith, length-encode 0x06 ecdsa_with_sha256),
    (omega (arith, length-signature_content p.signature), tt),
  ),
)

abbrev pub cert_body : CertParams → ℕ → ℕ → ℕ → ℕ → List ℕ
cert_body p year month day hour = encode_all (cert_elements p year month day hour)

cert_body-parts :
    (p : CertParams) (year month day hour : ℕ)
    → IsParams p year month day hour
    → build_tbs p ++ append_signature [] p.signature ≡ cert_body p year month day hour
unfolding encode_all
cert_body-parts p year month day hour i =
    rw (build_tbs-encode p year month day hour i, signature-encode [] p.signature) (simp append-nil)

pub length-cert_body :
    (p : CertParams) (year month day hour : ℕ)
    → IsParams p year month day hour
    → length (cert_body p year month day hour) < 65536
length-cert_body p year month day hour i = omega (
  arith,
  length-tbs p year month day hour i,
  length-encode_all_cons 0x30 (encode_all (tbs_elements p year month day hour))
      ((0x30, encode 0x06 ecdsa_with_sha256) ∷ (0x03, signature_content p.signature) ∷ []),
  length-encode_all-small
      ((0x30, encode 0x06 ecdsa_with_sha256) ∷ (0x03, signature_content p.signature) ∷ [])
      (
        omega (arith, length-encode 0x06 ecdsa_with_sha256),
        (omega (arith, length-signature_content p.signature), tt),
      ),
)

-- For parameters of the lengths that reconstructDeviceCert passes and a date from 2000 on whose
-- notAfter has four digits, buildCert, with its lengths computed in advance, writes the same bytes
-- as the encoding of the certificate's elements by the general rule of X.690, in which every length
-- is that of the content.
pub build_cert-encode :
    (p : CertParams) (year month day hour : ℕ)
    → IsParams p year month day hour
    → build_cert p ≡ encode 0x30 (encode_all (cert_elements p year month day hour))
unfolding build_cert
build_cert-encode p year month day hour i =
    rw
      (
        ← length-append (build_tbs p) (append_signature [] p.signature),
        append_assoc
            (append_sequence_header [] (length (build_tbs p ++ append_signature [] p.signature)))
            (build_tbs p) (append_signature [] p.signature),
        cert_body-parts p year month day hour i,
      )
      (header-encode [] (cert_body p year month day hour)
        (length-cert_body p year month day hour i))

-- The content of the first of the elements, if it has the tag.
abbrev pub first_content : ℕ → Option (List Element) → Option (List ℕ)
first_content tag none = none
first_content tag (some []) = none
first_content tag (some ((t, content) ∷ es)) = if t == tag then some content else none

abbrev pub read_first : Option (List ℕ) → Option (List ℕ)
read_first none = none
read_first (some bytes) = first_content 0x30 (read_all bytes)

abbrev pub read_inside : Option (List ℕ) → Option (List Element)
read_inside none = none
read_inside (some bytes) = read_all bytes

-- The fields of the TBSCertificate: the elements of the first element of the certificate.
abbrev pub read_tbs : List ℕ → Option (List Element)
read_tbs bytes = read_inside (read_first (read_first (some bytes)))

pub read_tbs-build_cert :
    (p : CertParams) (year month day hour : ℕ)
    → IsParams p year month day hour
    → read_tbs (build_cert p) ≡ some (tbs_elements p year month day hour)
read_tbs-build_cert p year month day hour i =
    rw
      (
        build_cert-encode p year month day hour i,
        read_all-encode 0x30 (cert_body p year month day hour)
            (length-cert_body p year month day hour i),
        read_all-encode_all (cert_elements p year month day hour)
            (cert_elements-IsShort p year month day hour i),
      )
      (read_all-encode_all (tbs_elements p year month day hour) (
        small-IsShort (tbs_elements p year month day hour)
          (tbs_elements-small p year month day hour i)))
