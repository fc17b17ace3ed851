-- ===== src/Certificate/RoundTrip.antt =====
-- compressed_cert.go: a response that a server writes in the documented format is read back.
use arduino_cloud_connector.Common.{ℕ, ◌≤◌, ◌<◌, ◌≡◌, refl, List, [], ◌∷◌, ◌++◌, length, All, arith}
use mathlib.Core.List.{append_assoc}
use arduino_cloud_connector.Certificate.{CertParams, build_cert}
use arduino_cloud_connector.Common.Integers.{pos}
use arduino_cloud_connector.Certificate.Text.{trim_space, split_bars}
use arduino_cloud_connector.Certificate.Response.{
  Crypto, ok, public_key_from_csr, reconstruct_device_cert,
}
use arduino_cloud_connector.Certificate.Numbers.{IsByte}
use arduino_cloud_connector.Certificate.Structure.{IsParams}
use arduino_cloud_connector.Certificate.Fields.{
  IsPlain, encode_hex, decode_hex-encode_hex, encode_hex-IsPlain, length-encode_hex,
  split_bars-field, split_bars_last, trim_space-fields, timestamp, parse_not_before-timestamp,
  timestamp-IsPlain,
}

-- What the API certifies, as the bytes behind the texts of the response.
pub record Issue : Type 0 where
  pub device_id : List ℕ
  pub auth_key_id : List ℕ
  pub year : ℕ
  pub month : ℕ
  pub day : ℕ
  pub hour : ℕ
  pub minutes : List ℕ
  pub serial : List ℕ
  pub sig_x : List ℕ
  pub sig_y : List ℕ

pub record IsIssue (i : Issue) : Type 0 where
  pub device_length : length i.device_id ≡ 36
  pub device_plain : All IsPlain i.device_id
  pub auth_key_id_length : length i.auth_key_id ≡ 20
  pub auth_key_id_bytes : All IsByte i.auth_key_id
  pub from_2000 : 2000 ≤ i.year
  pub to_9968 : i.year < 9969
  pub month_short : i.month < 100
  pub day_short : i.day < 100
  pub hour_short : i.hour < 100
  pub minutes_plain : All IsPlain i.minutes
  pub serial_length : length i.serial ≡ 16
  pub serial_bytes : All IsByte i.serial
  pub sig_x_length : length i.sig_x ≡ 32
  pub sig_x_bytes : All IsByte i.sig_x
  pub sig_y_length : length i.sig_y ≡ 32
  pub sig_y_bytes : All IsByte i.sig_y

abbrev bar : List ℕ → List ℕ → List ℕ
bar field rest = field ++ b'|' ∷ rest

-- The documented format: device_id|authority_key_identifier|not_before|serial|signature x|y.
abbrev pub response : Issue → List ℕ
response i = bar i.device_id (
    bar (encode_hex i.auth_key_id) (
      bar (timestamp i.year i.month i.day i.hour i.minutes)
        (bar (encode_hex i.serial) (bar (encode_hex i.sig_x) (encode_hex i.sig_y)))))

abbrev pub params_of : Issue → List ℕ → CertParams
params_of i key = record {
  public_key = key;
  device_id = i.device_id;
  serial = i.serial;
  auth_key_id = i.auth_key_id;
  signature = i.sig_x ++ i.sig_y;
  issue_year = pos i.year;
  issue_month = pos i.month;
  issue_day = pos i.day;
  issue_hour = pos i.hour;
  expire_years = 31;
}

split_bars-response :
    (i : Issue)
    → IsIssue i
    → split_bars (response i)
      ≡ i.device_id
        ∷ encode_hex i.auth_key_id
        ∷ timestamp i.year i.month i.day i.hour i.minutes
        ∷ encode_hex i.serial
        ∷ encode_hex i.sig_x
        ∷ encode_hex i.sig_y
        ∷ []
split_bars-response i h =
    rw
      (
        split_bars-field i.device_id _ h.device_plain,
        split_bars-field (encode_hex i.auth_key_id) _
            (encode_hex-IsPlain i.auth_key_id h.auth_key_id_bytes),
        split_bars-field (timestamp i.year i.month i.day i.hour i.minutes) _
            (timestamp-IsPlain i.year i.month i.day i.hour i.minutes h.minutes_plain),
        split_bars-field (encode_hex i.serial) _ (encode_hex-IsPlain i.serial h.serial_bytes),
        split_bars-field (encode_hex i.sig_x) _ (encode_hex-IsPlain i.sig_x h.sig_x_bytes),
        split_bars_last (encode_hex i.sig_y) (encode_hex-IsPlain i.sig_y h.sig_y_bytes),
      )
      refl

trim_space-around :
    (d m l : List ℕ)
    → 0 < length d
    → 0 < length l
    → All IsPlain d
    → All IsPlain l
    → trim_space (d ++ (m ++ l)) ≡ d ++ (m ++ l)
trim_space-around [] m l h h' d_plain l_plain = ground arith
trim_space-around (b ∷ bs) m [] h h' d_plain l_plain = ground arith
trim_space-around (b ∷ bs) m (c ∷ f) h h' d_plain l_plain =
    rw (← append_assoc bs m (c ∷ f)) (trim_space-fields b (bs ++ m) c f d_plain.0 l_plain)

-- What stands between the first and the last field.
abbrev between : Issue → List ℕ
between i =
    b'|'
    ∷ bar (encode_hex i.auth_key_id) (
        bar (timestamp i.year i.month i.day i.hour i.minutes)
          (bar (encode_hex i.serial) (bar (encode_hex i.sig_x) [])))

between-response : (i : Issue) → response i ≡ i.device_id ++ (between i ++ encode_hex i.sig_y)
between-response i = simp append_assoc

trim_space-response : (i : Issue) → IsIssue i → trim_space (response i) ≡ response i
trim_space-response i h = rw (between-response i) (
    trim_space-around i.device_id (between i) (encode_hex i.sig_y) (omega (arith, h.device_length))
      (omega (arith, h.sig_y_length, length-encode_hex i.sig_y)) h.device_plain
      (encode_hex-IsPlain i.sig_y h.sig_y_bytes))

pub reconstruct-response :
    {K E : Type 0} (x : Crypto K E) (csr key : List ℕ) (i : Issue)
    → IsIssue i
    → public_key_from_csr x csr ≡ ok key
    → reconstruct_device_cert x csr (response i)
      ≡ ok (i.device_id, x.encode_pem (build_cert (params_of i key)))
unfolding reconstruct_device_cert
reconstruct-response x csr key i h found =
    rw
      (
        trim_space-response i h,
        split_bars-response i h,
        length-encode_hex i.auth_key_id,
        length-encode_hex i.serial,
        length-encode_hex i.sig_x,
        length-encode_hex i.sig_y,
        h.device_length,
        h.auth_key_id_length,
        h.serial_length,
        h.sig_x_length,
        h.sig_y_length,
        decode_hex-encode_hex i.auth_key_id h.auth_key_id_bytes,
        decode_hex-encode_hex i.serial h.serial_bytes,
        decode_hex-encode_hex i.sig_x h.sig_x_bytes,
        decode_hex-encode_hex i.sig_y h.sig_y_bytes,
        parse_not_before-timestamp i.year i.month i.day i.hour i.minutes (omega (arith, h.to_9968))
            h.month_short h.day_short h.hour_short,
        found,
      )
      refl

pub params_of-IsParams :
    (i : Issue) (key : List ℕ)
    → IsIssue i
    → length key ≡ 64
    → IsParams (params_of i key) i.year i.month i.day i.hour
params_of-IsParams i key h k = record {
  public_key = k;
  device_set = omega (arith, h.device_length);
  device_short = omega (arith, h.device_length);
  serial_set = omega (arith, h.serial_length);
  serial_short = omega (arith, h.serial_length);
  auth_key_id = h.auth_key_id_length;
  year_is = refl;
  month_is = refl;
  day_is = refl;
  hour_is = refl;
  from_2000 = h.from_2000;
  to_9999 = omega (arith, h.to_9968);
  month_short = h.month_short;
  day_short = h.day_short;
  hour_short = h.hour_short;
}
