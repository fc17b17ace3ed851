-- ===== src/Certificate/Response.antt =====
-- compressed_cert.go: reconstructDeviceCert, parseNotBefore and publicKeyFromCSR. crypto/x509 and
-- encoding/pem are parameters.
use arduino_cloud_connector.Common.{
  ℕ, Bool, ◌&&◌, Option, none, some, List, [], ◌∷◌, ◌++◌, length, ltb, ◌==◌, take, drop,
  if◌then◌else◌,
}
use arduino_cloud_connector.Certificate.{build_cert}
use arduino_cloud_connector.Common.Integers.{ℤ}
use arduino_cloud_connector.Certificate.Text.{trim_space, split_bars, decode_hex, atoi}

pub data Error : Type 0 where
  unexpected_format : ℕ → Error
  field_length_mismatch bad_authority_key_id bad_serial bad_signature_x bad_signature_y : Error
  not_before_too_short bad_year bad_month bad_day bad_hour : Error
  invalid_csr_pem bad_csr not_ec bad_ec_key : Error

pub data Result {ℓ} (A : Type ℓ) : Type ℓ where
  ok : A → Result A
  err : Error → Result A

infixl 5 ◌>>=◌
abbrev pub ◌>>=◌ {ℓ κ} : {A : Type ℓ} {B : Type κ} → Result A → (A → Result B) → Result B
ok a >>= f = f a
err e >>= f = err e

abbrev pub or_error {ℓ} : {A : Type ℓ} → Error → Option A → Result A
or_error e none = err e
or_error e (some a) = ok a

-- pem.Decode, x509.ParseCertificateRequest, the assertion to *ecdsa.PublicKey, ECDH with Bytes, and
-- pem.EncodeToMemory of a CERTIFICATE. K is a public key, E one of ecdsa.
pub record Crypto (K E : Type 0) : Type 0 where
  pub decode_pem : List ℕ → Option (List ℕ)
  pub parse_request : List ℕ → Option K
  pub as_ecdsa : K → Option E
  pub ecdh_bytes : E → Option (List ℕ)
  pub encode_pem : List ℕ → List ℕ

unfoldable pub parse_not_before : List ℕ → Result (ℤ × ℤ × ℤ × ℤ)
parse_not_before s = if ltb (length s) 13 then err not_before_too_short else do
  year ← or_error bad_year (atoi (take 4 s))
  month ← or_error bad_month (atoi (take 2 (drop 5 s)))
  day ← or_error bad_day (atoi (take 2 (drop 8 s)))
  hour ← or_error bad_hour (atoi (take 2 (drop 11 s)))
  ok (year, month, day, hour)

-- 6 fields of the response, else none.
abbrev pub Fields : Type 0
Fields = List ℕ × List ℕ × List ℕ × List ℕ × List ℕ × List ℕ

abbrev pub six_fields : List (List ℕ) → Result Fields
six_fields (a ∷ b ∷ c ∷ d ∷ e ∷ f ∷ []) = ok (a, b, c, d, e, f)
six_fields parts = err (unexpected_format (length parts))

abbrev pub lengths_ok : Fields → Bool
lengths_ok (device_id, aki, not_before, serial, sig_x, sig_y) =
    length device_id == 36
    && (length aki == 40 && (length serial == 32 && (length sig_x == 64 && length sig_y == 64)))

abbrev pub check_lengths : Fields → Result (Unit {0})
check_lengths f = if lengths_ok f then ok tt else err field_length_mismatch

module _ {K E : Type 0} (x : Crypto K E) where
  unfoldable pub public_key_from_csr : List ℕ → Result (List ℕ)
  public_key_from_csr csr = do
    block ← or_error invalid_csr_pem (x.decode_pem csr)
    key ← or_error bad_csr (x.parse_request block)
    ec ← or_error not_ec (x.as_ecdsa key)
    raw ← or_error bad_ec_key (x.ecdh_bytes ec)
    ok (take 32 (drop 1 raw) ++ take 32 (drop 33 raw))

  unfoldable pub reconstruct_device_cert : List ℕ → List ℕ → Result (List ℕ × List ℕ)
  reconstruct_device_cert csr body = do
    (device_id, aki_hex, not_before, serial_hex, sig_x_hex, sig_y_hex) ←
        six_fields (split_bars (trim_space body))
    _ ← check_lengths (device_id, aki_hex, not_before, serial_hex, sig_x_hex, sig_y_hex)
    aki ← or_error bad_authority_key_id (decode_hex aki_hex)
    serial ← or_error bad_serial (decode_hex serial_hex)
    sig_x ← or_error bad_signature_x (decode_hex sig_x_hex)
    sig_y ← or_error bad_signature_y (decode_hex sig_y_hex)
    (year, month, day, hour) ← parse_not_before not_before
    key ← public_key_from_csr csr
    ok (
      device_id,
      x.encode_pem (
          build_cert record {
            public_key = key;
            device_id = device_id;
            serial = serial;
            auth_key_id = aki;
            signature = sig_x ++ sig_y;
            issue_year = year;
            issue_month = month;
            issue_day = day;
            issue_hour = hour;
            expire_years = 31;
          }),
    )
