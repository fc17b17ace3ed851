-- ===== src/Certificate/Accepted.antt =====
-- compressed_cert.go: what is known of a response that reconstructDeviceCert accepts.
use arduino_cloud_connector.Common.{
  ℕ, ◌+◌, ◌*◌, ◌<◌, ◌≡◌, refl, sym, Option, none, some, List, [], ◌∷◌, ◌++◌, length, length-append,
  All, arith,
}
use arduino_cloud_connector.Certificate.{CertParams, build_cert}
use arduino_cloud_connector.Certificate.Numbers.{IsByte}
use arduino_cloud_connector.Certificate.Text.{
  decode_hex, hex_digit, hex_byte, trim_space, split_bars,
}
use arduino_cloud_connector.Certificate.Response.{
  Crypto, Result, Error, bad_authority_key_id, bad_serial, bad_signature_x, bad_signature_y, Fields,
  ok, err, ◌>>=◌, or_error, check_lengths, parse_not_before, public_key_from_csr,
  reconstruct_device_cert, six_fields,
}

hex_digit-lt : (c n : ℕ) → hex_digit c ≡ some n → n < 16
hex_digit-lt c n h = ground arith

hex_byte_inversion :
    (a b : Option ℕ) (o : Option (List ℕ)) (bs : List ℕ)
    → hex_byte a b o ≡ some bs
    → (m : ℕ) × (n : ℕ) × (rest : List ℕ) × (a ≡ some m)
      × (b ≡ some n)
      × (o ≡ some rest)
      × (bs ≡ (m * 16 + n) ∷ rest)
hex_byte_inversion a b o bs h = ground arith

-- A hexadecimal text has two digits for each of its bytes.
decode_hex-length :
    (s bs : List ℕ) → decode_hex s ≡ some bs → (length s ≡ 2 * length bs) × All IsByte bs
unfolding decode_hex
decode_hex-length [] bs h = ground arith
decode_hex-length (c ∷ []) bs h = ground arith
decode_hex-length (c ∷ d ∷ s) bs h =
    let (m, n, rest, high, low, more, same) =
      hex_byte_inversion (hex_digit c) (hex_digit d) (decode_hex s) bs h in
    let (len, bytes) = decode_hex-length s rest more in
    rw same
      (omega (arith, len), (omega (arith, hex_digit-lt c m high, hex_digit-lt d n low), bytes))

bind_ok {ℓ κ} :
    {A : Type ℓ} {B : Type κ} (m : Result A) (f : A → Result B) (b : B)
    → (m >>= f) ≡ ok b
    → (a : A) × (m ≡ ok a) × (f a ≡ ok b)
bind_ok (ok a) f b h = (a, refl, h)
bind_ok (err e) f b h = ground arith

or_error_ok {ℓ} : {A : Type ℓ} (e : Error) (o : Option A) (a : A) → or_error e o ≡ ok a → o ≡ some a
or_error_ok e none a h = ground arith
or_error_ok e (some b) a h = ground arith

check_lengths_ok :
    (f : Fields) (u : Unit {0})
    → check_lengths f ≡ ok u
    → (length f.0 ≡ 36)
      × (length f.1 ≡ 40)
      × (length f.3 ≡ 32)
      × (length f.4 ≡ 64)
      × (length f.5 ≡ 64)
check_lengths_ok f u h = ground arith

-- The parameters of the certificate have the lengths that buildCert counts on.
pub record HasLengths (p : CertParams) : Type 0 where
  pub device_id : length p.device_id ≡ 36
  pub auth_key_id : length p.auth_key_id ≡ 20
  pub serial : length p.serial ≡ 16
  pub signature : length p.signature ≡ 64
  pub auth_key_id_bytes : All IsByte p.auth_key_id
  pub serial_bytes : All IsByte p.serial
  pub signature_bytes : All IsByte p.signature

All-append : (xs ys : List ℕ) → All IsByte xs → All IsByte ys → All IsByte (xs ++ ys)
All-append [] ys h h' = h'
All-append (x ∷ xs) ys h h' = (h.0, All-append xs ys h.1 h')

decoded_length :
    (e : Error) (s bs : List ℕ)
    → or_error e (decode_hex s) ≡ ok bs
    → (length s ≡ 2 * length bs) × All IsByte bs
decoded_length e s bs h = decode_hex-length s bs (or_error_ok e (decode_hex s) bs h)

ok_pair :
    {A B : Type 0} {a c : A} {b d : B}
    → ◌≡◌ {A = Result (A × B)} (ok (a, b)) (ok (c, d))
    → (a ≡ c) × (b ≡ d)
ok_pair h = ground arith

-- Whatever the response body, if reconstructDeviceCert returns no error, it returned the device id
-- and the PEM form of buildCert for parameters with a device id of 36 bytes, an authority key id of
-- 20, a serial of 16 and a signature of 64, all of them bytes, so that no slice of the signature is
-- out of range, and with the key of the request.
pub reconstruct_ok :
    {K E : Type 0} (x : Crypto K E) (csr body device_id pem : List ℕ)
    → reconstruct_device_cert x csr body ≡ ok (device_id, pem)
    → (p : CertParams) × (p.device_id ≡ device_id)
      × (pem ≡ x.encode_pem (build_cert p))
      × (public_key_from_csr x csr ≡ ok p.public_key)
      × HasLengths p
unfolding reconstruct_device_cert
reconstruct_ok x csr body device_id pem h =
    let (fields, six, h1) =
      bind_ok (six_fields (split_bars (trim_space body))) _ (device_id, pem) h in
    let (u, checked, h2) = bind_ok (check_lengths fields) _ (device_id, pem) h1 in
    let (aki, aki_ok, h3) = bind_ok (or_error _ (decode_hex fields.1)) _ (device_id, pem) h2 in
    let (serial, serial_ok, h4) =
      bind_ok (or_error _ (decode_hex fields.3)) _ (device_id, pem) h3 in
    let (sig_x, sig_x_ok, h5) = bind_ok (or_error _ (decode_hex fields.4)) _ (device_id, pem) h4 in
    let (sig_y, sig_y_ok, h6) = bind_ok (or_error _ (decode_hex fields.5)) _ (device_id, pem) h5 in
    let (date, date_ok, h7) = bind_ok (parse_not_before fields.2) _ (device_id, pem) h6 in
    let (key, key_ok, h8) = bind_ok (public_key_from_csr x csr) _ (device_id, pem) h7 in
    let (device_is, pem_is) = ok_pair h8 in
    let (l0, l1, l3, l4, l5) = check_lengths_ok fields u checked in
    let (aki_length, aki_bytes) = decoded_length bad_authority_key_id fields.1 aki aki_ok in
    let (serial_length, serial_bytes) = decoded_length bad_serial fields.3 serial serial_ok in
    let (x_length, x_bytes) = decoded_length bad_signature_x fields.4 sig_x sig_x_ok in
    let (y_length, y_bytes) = decoded_length bad_signature_y fields.5 sig_y sig_y_ok in
    (
      _,
      device_is,
      sym pem_is,
      key_ok,
      record {
        device_id = l0;
        auth_key_id = omega arith;
        serial = omega arith;
        signature = omega (arith, length-append sig_x sig_y);
        auth_key_id_bytes = aki_bytes;
        serial_bytes = serial_bytes;
        signature_bytes = All-append sig_x sig_y x_bytes y_bytes;
      },
    )
