-- ===== src/Certificate/Issued.antt =====
-- compressed_cert.go: what a reader of the certificate finds, against what the API certified.
use arduino_cloud_connector.Common.{
  ℕ, ◌≡◌, refl, ◌∙◌, ap, sym, Option, none, some, List, [], ◌∷◌, ◌++◌, length, length-append, ◌<◌,
  take, drop, take-append, drop-append, ◌==◌, ◌&&◌, if◌then◌else◌, arith,
}
use mathlib.Core.List.{append-nil}
use arduino_cloud_connector.Certificate.{build_cert}
use arduino_cloud_connector.Certificate.Elements.{
  Element, encode, encode_length, encode_all, read_all, read_all-encode, read_all-encode_all,
  length-encode,
}
use arduino_cloud_connector.Certificate.Layout.{ecdsa_with_sha256}
use arduino_cloud_connector.Certificate.Names.{attribute, attribute_if_set, name_content}
use arduino_cloud_connector.Certificate.Numbers.{
  IsInteger, big_endian, der_integer_lem, length-der_integer,
}
use arduino_cloud_connector.Certificate.Primitives.{der_integer}
use arduino_cloud_connector.Certificate.Structure.{
  tbs_elements, cert_elements, validity_content, key_content, extensions_content,
}
use arduino_cloud_connector.Certificate.Encoding.{
  read_tbs, read_tbs-build_cert, read_first, read_inside, cert_body, length-cert_body,
  cert_elements-IsShort, build_cert-encode,
}
use arduino_cloud_connector.Certificate.Response.{
  Crypto, ok, public_key_from_csr, reconstruct_device_cert,
}
use arduino_cloud_connector.Certificate.RoundTrip.{
  Issue, IsIssue, response, params_of, params_of-IsParams, reconstruct-response,
}

-- The fields of a version 3 TBSCertificate for the key: the issuer is C=US, O=Arduino LLC US, OU=IT,
-- CN=Arduino, the subject's CN the device id, and it is good for 31 years.
abbrev pub issued_elements : Issue → List ℕ → List ℕ → List Element
issued_elements i key serial =
    (0xa0, encode 0x02 (2 ∷ []))
    ∷ (0x02, serial)
    ∷ (0x30, encode 0x06 ecdsa_with_sha256)
    ∷ (
      0x30,
      attribute (b'U' ∷ b'S' ∷ []) 0x06
          ++ (attribute
                (b'A' ∷ b'r' ∷ b'd' ∷ b'u' ∷ b'i' ∷ b'n' ∷ b'o' ∷ b' ' ∷ b'L' ∷ b'L' ∷ b'C' ∷ b' '
                  ∷ b'U' ∷ b'S' ∷ [])
                0x0a
              ++ (attribute (b'I' ∷ b'T' ∷ []) 0x0b
                  ++ attribute (b'A' ∷ b'r' ∷ b'd' ∷ b'u' ∷ b'i' ∷ b'n' ∷ b'o' ∷ []) 0x03)),
    )
    ∷ (0x30, validity_content i.year 31 i.month i.day i.hour)
    ∷ (0x30, attribute i.device_id 0x03)
    ∷ (0x30, key_content key)
    ∷ (0xa3, extensions_content i.auth_key_id)
    ∷ []

-- The BIT STRING after the TBSCertificate and the algorithm, with no bits unused, holds a sequence.
abbrev pub bits_of : Option (List Element) → Option (List ℕ)
bits_of (some (tbs ∷ algorithm ∷ (tag, unused ∷ bits) ∷ [])) =
    if tag == 0x03 && unused == 0 then some bits else none
bits_of _ = none

-- The elements of the signature's sequence.
abbrev pub read_signature : List ℕ → Option (List Element)
read_signature der = read_inside (read_first (bits_of (read_inside (read_first (some der)))))

-- The content of the one INTEGER that is the number of the bytes.
abbrev pub StandsFor : List ℕ → List ℕ → Type 0
StandsFor content bytes = IsInteger content × (big_endian content ≡ big_endian bytes)

subject_content :
    (device_id : List ℕ)
    → length device_id ≡ 36
    → attribute_if_set device_id 0x03 ≡ attribute device_id 0x03
subject_content [] h = ground arith
subject_content (b ∷ bs) h = refl

tbs_elements-issued_elements :
    (i : Issue) (key : List ℕ)
    → length i.device_id ≡ 36
    → tbs_elements (params_of i key) i.year i.month i.day i.hour
      ≡ issued_elements i key (der_integer i.serial)
unfolding name_content encode encode_length
tbs_elements-issued_elements i key h = rw (subject_content i.device_id h) refl

take_front : (n : ℕ) (xs ys : List ℕ) → length xs ≡ n → take n (xs ++ ys) ≡ xs
take_front n xs ys h = rw (← h) (take-append xs ys)

take_all : (n : ℕ) (xs : List ℕ) → length xs ≡ n → take n xs ≡ xs
take_all n xs h = ap (take n) (sym (append-nil xs)) ∙ take_front n xs [] h

drop_front : (n : ℕ) (xs ys : List ℕ) → length xs ≡ n → drop n (xs ++ ys) ≡ ys
drop_front n xs ys h = rw (← h) (drop-append xs ys)

read_pair :
    (r s : List ℕ)
    → length r < 100
    → length s < 100
    → read_inside (read_first (some (encode 0x30 (encode 0x02 r ++ encode 0x02 s))))
      ≡ some ((0x02, r) ∷ (0x02, s) ∷ [])
unfolding encode_all
read_pair r s h h' =
    let both = encode 0x02 r ++ encode 0x02 s in
    rw
      (read_all-encode 0x30 both (
        omega (
          arith,
          length-append (encode 0x02 r) (encode 0x02 s),
          length-encode 0x02 r,
          length-encode 0x02 s,
        )))
      (ap (λ (bs : List ℕ). read_all (encode 0x02 r ++ bs)) (sym (append-nil (encode 0x02 s)))
        ∙ read_all-encode_all ((0x02, r) ∷ (0x02, s) ∷ []) (omega arith, (omega arith, tt)))

read_signature-build_cert :
    (i : Issue) (key : List ℕ)
    → IsIssue i
    → length key ≡ 64
    → read_signature (build_cert (params_of i key))
      ≡ some ((0x02, der_integer i.sig_x) ∷ (0x02, der_integer i.sig_y) ∷ [])
read_signature-build_cert i key h k =
    let p = params_of i key in
    let is_params = params_of-IsParams i key h k in
    rw
      (
        build_cert-encode p i.year i.month i.day i.hour is_params,
        read_all-encode 0x30 (cert_body p i.year i.month i.day i.hour)
            (length-cert_body p i.year i.month i.day i.hour is_params),
        read_all-encode_all (cert_elements p i.year i.month i.day i.hour)
            (cert_elements-IsShort p i.year i.month i.day i.hour is_params),
        take_front 32 i.sig_x i.sig_y h.sig_x_length,
        drop_front 32 i.sig_x i.sig_y h.sig_x_length,
        take_all 32 i.sig_y h.sig_y_length,
      )
      (read_pair (der_integer i.sig_x) (der_integer i.sig_y)
        (omega (arith, length-der_integer i.sig_x, h.sig_x_length))
        (omega (arith, length-der_integer i.sig_y, h.sig_y_length)))

-- For every response in the documented format, with a device id of 36 printable characters, byte
-- strings of the documented lengths in hexadecimal and a date from 2000 on whose notAfter has four
-- digits, and every request with a key of 64 bytes, reconstructDeviceCert returns the device id and
-- a certificate from which a reader of the Distinguished Encoding Rules gets the fields of a
-- version 3 TBSCertificate and the two numbers of the signature: the subject has the device id, the
-- validity begins at the hour of the date and ends 31 years later, the serial number and the
-- signature's numbers are those of the response, each as the one INTEGER that stands for it, and
-- the authority key id is in its extension, unless its bytes are all zero, when there is none.
pub reconstruct_reads :
    {K E : Type 0} (x : Crypto K E) (csr key : List ℕ) (i : Issue)
    → IsIssue i
    → length key ≡ 64
    → public_key_from_csr x csr ≡ ok key
    → (der : List ℕ) × (serial : List ℕ) × (r : List ℕ) × (s : List ℕ) × (reconstruct_device_cert x
          csr
          (response i)
        ≡ ok (i.device_id, x.encode_pem der))
      × (read_tbs der ≡ some (issued_elements i key serial))
      × (read_signature der ≡ some ((0x02, r) ∷ (0x02, s) ∷ []))
      × StandsFor serial i.serial
      × StandsFor r i.sig_x
      × StandsFor s i.sig_y
reconstruct_reads x csr key i h k found = (
  build_cert (params_of i key),
  der_integer i.serial,
  der_integer i.sig_x,
  der_integer i.sig_y,
  reconstruct-response x csr key i h found,
  read_tbs-build_cert (params_of i key) i.year i.month i.day i.hour (params_of-IsParams i key h k)
      ∙ ap some (tbs_elements-issued_elements i key h.device_length),
  read_signature-build_cert i key h k,
  der_integer_lem i.serial (omega (arith, h.serial_length)) h.serial_bytes,
  der_integer_lem i.sig_x (omega (arith, h.sig_x_length)) h.sig_x_bytes,
  der_integer_lem i.sig_y (omega (arith, h.sig_y_length)) h.sig_y_bytes,
)
