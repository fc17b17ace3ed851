-- ===== src/Certificate/Examples.antt =====
-- compressed_cert.go: the theorems at a concrete response, and tests.
use arduino_cloud_connector.Common.{ℕ, zero, suc, ◌≡◌, ◌<◌, refl, some, List, [], ◌∷◌, All, arith}
use arduino_cloud_connector.Certificate.{CertParams, build_cert}
use arduino_cloud_connector.Certificate.Elements.{encode, encode_all}
use arduino_cloud_connector.Certificate.Encoding.{read_tbs, build_cert-encode}
use arduino_cloud_connector.Certificate.Structure.{cert_elements}
use arduino_cloud_connector.Certificate.Numbers.{IsByte}
use arduino_cloud_connector.Certificate.Primitives.{append_date}
use arduino_cloud_connector.Common.Integers.{pos, negsuc}
use arduino_cloud_connector.Certificate.Text.{atoi, atoi_digits}
use arduino_cloud_connector.Certificate.Response.{
  Crypto, ok, public_key_from_csr, parse_not_before, reconstruct_device_cert,
}
use arduino_cloud_connector.Certificate.RoundTrip.{
  Issue, IsIssue, response, reconstruct-response, params_of, params_of-IsParams,
}
use arduino_cloud_connector.Certificate.Issued.{
  issued_elements, read_signature, StandsFor, reconstruct_reads,
}
use arduino_cloud_connector.Certificate.Fields.{IsPlain}
use arduino_cloud_connector.Certificate.Accepted.{HasLengths, reconstruct_ok}

abbrev pub repeat : ℕ → ℕ → List ℕ
repeat zero b = []
repeat (suc n) b = b ∷ repeat n b

repeat-IsByte : (n b : ℕ) → b < 256 → All IsByte (repeat n b)
repeat-IsByte zero b h = tt
repeat-IsByte (suc n) b h = (h, repeat-IsByte n b h)

repeat-IsPlain : (n b : ℕ) → IsPlain b → All IsPlain (repeat n b)
repeat-IsPlain zero b h = tt
repeat-IsPlain (suc n) b h = (h, repeat-IsPlain n b h)

-- A request is the uncompressed point of its key.
abbrev pub points : Crypto (List ℕ) (List ℕ)
points = record {
  decode_pem = some;
  parse_request = some;
  as_ecdsa = some;
  ecdh_bytes = some;
  encode_pem = λ der. der;
}

abbrev pub point : List ℕ
point = 4 ∷ repeat 64 7

abbrev pub board : Issue
board = record {
  device_id = repeat 36 b'a';
  auth_key_id = repeat 20 0x9c;
  year = 2024;
  month = 1;
  day = 15;
  hour = 10;
  minutes = b':' ∷ b'3' ∷ b'0' ∷ [];
  serial = 0 ∷ repeat 15 0xf1;
  sig_x = repeat 32 0x80;
  sig_y = 0 ∷ 0 ∷ repeat 30 0x12;
}

pub board-IsIssue : IsIssue board
board-IsIssue = record {
  device_length = refl;
  device_plain = repeat-IsPlain 36 b'a' (ground arith);
  auth_key_id_length = refl;
  auth_key_id_bytes = repeat-IsByte 20 0x9c (omega arith);
  from_2000 = omega arith;
  to_9968 = omega arith;
  month_short = omega arith;
  day_short = omega arith;
  hour_short = omega arith;
  minutes_plain = ground arith;
  serial_length = refl;
  serial_bytes = (omega arith, repeat-IsByte 15 0xf1 (omega arith));
  sig_x_length = refl;
  sig_x_bytes = repeat-IsByte 32 0x80 (omega arith);
  sig_y_length = refl;
  sig_y_bytes = (omega arith, (omega arith, repeat-IsByte 30 0x12 (omega arith)));
}

pub found : public_key_from_csr points point ≡ ok (repeat 64 7)
unfolding public_key_from_csr
found = refl

reconstruct_reads_example :
    (der : List ℕ) × (serial : List ℕ) × (r : List ℕ) × (s : List ℕ) × (reconstruct_device_cert
        points point
        (response board)
      ≡ ok (repeat 36 b'a', der))
    × (read_tbs der ≡ some (issued_elements board (repeat 64 7) serial))
    × (read_signature der ≡ some ((0x02, r) ∷ (0x02, s) ∷ []))
    × StandsFor serial board.serial
    × StandsFor r board.sig_x
    × StandsFor s board.sig_y
reconstruct_reads_example =
    reconstruct_reads points point (repeat 64 7) board board-IsIssue refl found

build_cert-encode_example :
    build_cert (params_of board (repeat 64 7))
    ≡ encode 0x30 (encode_all (cert_elements (params_of board (repeat 64 7)) 2024 1 15 10))
build_cert-encode_example =
    build_cert-encode (params_of board (repeat 64 7)) 2024 1 15 10
      (params_of-IsParams board (repeat 64 7) board-IsIssue refl)

reconstruct_ok_example :
    (p : CertParams) × (p.device_id ≡ repeat 36 b'a')
    × (build_cert (params_of board (repeat 64 7)) ≡ build_cert p)
    × (public_key_from_csr points point ≡ ok p.public_key)
    × HasLengths p
reconstruct_ok_example =
    reconstruct_ok points point (response board) (repeat 36 b'a')
      (build_cert (params_of board (repeat 64 7)))
      (reconstruct-response points point (repeat 64 7) board board-IsIssue found)

-- Atoi takes a sign, and no check asks for a year after 1999 or a month up to 12.
loose_date :
    parse_not_before (
      b'+' ∷ b'9' ∷ b'9' ∷ b'9' ∷ b'-' ∷ b'9' ∷ b'9' ∷ b'-' ∷ b'0' ∷ b'0' ∷ b'T' ∷ b'-' ∷ b'1' ∷ [])
    ≡ ok (pos 999, pos 99, pos 0, negsuc 0)
unfolding parse_not_before atoi atoi_digits
loose_date = refl

-- The last year before 2000 is the byte before the digits.
year_1999 :
    append_date [] (pos 1999) (pos 12) (pos 31) (pos 23)
    ≡ 0x17 ∷ 0x0d ∷ b'0' ∷ b'/' ∷ b'1' ∷ b'2' ∷ b'3' ∷ b'1' ∷ b'2' ∷ b'3' ∷ b'0' ∷ b'0' ∷ b'0'
      ∷ b'0' ∷ b'Z' ∷ []
unfolding append_date
year_1999 = refl
