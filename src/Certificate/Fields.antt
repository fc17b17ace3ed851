-- ===== src/Certificate/Fields.antt =====
-- compressed_cert.go: the functions on strings at the fields of a response in the documented format.
use arduino_cloud_connector.Common.{
  ℕ, zero, suc, ◌+◌, ◌*◌, ◌/◌, ◌%◌, ◌≤◌, ◌<◌, ◌≡◌, ◌≢◌, refl, ◌∙◌, ap, sym, some, List, [], ◌∷◌,
  ◌++◌, length, All, ltb, if◌then◌else◌, arith,
}
use mathlib.Core.List.{reverse, append_assoc, reverse-append, reverse-reverse}
use arduino_cloud_connector.Common.Integers.{pos}
use arduino_cloud_connector.Certificate.Dates.{decimal}
use arduino_cloud_connector.Certificate.Text.{
  trim_space, trim_with, leading_space, trailing_space, split_bars, decode_hex, hex_digit, atoi,
  atoi_digits,
}
use arduino_cloud_connector.Certificate.Response.{ok, parse_not_before}
use arduino_cloud_connector.Certificate.Numbers.{IsByte}

-- A printable ASCII character, no space and no bar.
abbrev pub IsPlain : ℕ → Type 0
IsPlain b = (33 ≤ b) × (b < 127) × (b ≢ b'|')

abbrev pub hex_of : ℕ → ℕ
hex_of n = if ltb n 10 then 48 + n else 87 + n

unfoldable pub encode_hex : List ℕ → List ℕ
encode_hex [] = []
encode_hex (b ∷ bs) = hex_of (b / 16) ∷ hex_of (b % 16) ∷ encode_hex bs

hex_digit-hex_of : (n : ℕ) → n < 16 → hex_digit (hex_of n) ≡ some n
hex_digit-hex_of n h = ground arith

hex_of-IsPlain : (n : ℕ) → n < 16 → IsPlain (hex_of n)
hex_of-IsPlain n h = ground arith

pub decode_hex-encode_hex : (bs : List ℕ) → All IsByte bs → decode_hex (encode_hex bs) ≡ some bs
unfolding decode_hex encode_hex
decode_hex-encode_hex [] h = refl
decode_hex-encode_hex (b ∷ bs) h =
    rw
      (
        hex_digit-hex_of (b / 16) (omega (arith, h.0)),
        hex_digit-hex_of (b % 16) (omega arith),
        decode_hex-encode_hex bs h.1,
      )
      (ground arith)

pub encode_hex-IsPlain : (bs : List ℕ) → All IsByte bs → All IsPlain (encode_hex bs)
unfolding encode_hex
encode_hex-IsPlain [] h = tt
encode_hex-IsPlain (b ∷ bs) h = (
  hex_of-IsPlain (b / 16) (omega (arith, h.0)),
  (hex_of-IsPlain (b % 16) (omega arith), encode_hex-IsPlain bs h.1),
)

pub length-encode_hex : (bs : List ℕ) → length (encode_hex bs) ≡ 2 * length bs
unfolding encode_hex
length-encode_hex [] = refl
length-encode_hex (b ∷ bs) = omega (arith, length-encode_hex bs)

pub split_bars-field :
    (f rest : List ℕ) → All IsPlain f → split_bars (f ++ b'|' ∷ rest) ≡ f ∷ split_bars rest
unfolding split_bars
split_bars-field [] rest h = refl
split_bars-field (b ∷ f) rest h = rw (split_bars-field f rest h.1) (ground (arith, h.0))

pub split_bars_last : (f : List ℕ) → All IsPlain f → split_bars f ≡ f ∷ []
unfolding split_bars
split_bars_last [] h = refl
split_bars_last (b ∷ f) h = rw (split_bars_last f h.1) (ground (arith, h.0))

leading_space-plain : (b : ℕ) (bs : List ℕ) → IsPlain b → leading_space (b ∷ bs) ≡ 0
unfolding leading_space
leading_space-plain b [] h = ground arith
leading_space-plain b (c ∷ []) h = ground arith
leading_space-plain b (c ∷ d ∷ bs) h = ground arith

trailing_space-plain : (b : ℕ) (bs : List ℕ) → IsPlain b → trailing_space (b ∷ bs) ≡ 0
unfolding trailing_space
trailing_space-plain b [] h = ground arith
trailing_space-plain b (c ∷ []) h = ground arith
trailing_space-plain b (c ∷ d ∷ bs) h = ground arith

trim_with-none :
    (space : List ℕ → ℕ) (fuel : ℕ) (bs : List ℕ) → space bs ≡ 0 → trim_with space fuel bs ≡ bs
unfolding trim_with
trim_with-none space zero bs h = refl
trim_with-none space (suc fuel) bs h = rw h refl

-- A text that begins and ends with a plain character is left alone.
trim_space-plain :
    (b z : ℕ) (bs : List ℕ)
    → IsPlain b
    → IsPlain z
    → trim_space ((b ∷ bs) ++ z ∷ []) ≡ (b ∷ bs) ++ z ∷ []
unfolding trim_space
trim_space-plain b z bs h h' =
    rw
      (
        trim_with-none leading_space (length ((b ∷ bs) ++ z ∷ [])) ((b ∷ bs) ++ z ∷ [])
            (leading_space-plain b (bs ++ z ∷ []) h),
        reverse-append (b ∷ bs) (z ∷ []),
        trim_with-none trailing_space (length ((b ∷ bs) ++ z ∷ [])) (z ∷ reverse (b ∷ bs))
            (trailing_space-plain z (reverse (b ∷ bs)) h'),
      )
      (ap reverse (sym (reverse-append (b ∷ bs) (z ∷ []))) ∙ reverse-reverse ((b ∷ bs) ++ z ∷ []))

ends-IsPlain :
    (c : ℕ) (f : List ℕ)
    → All IsPlain (c ∷ f)
    → (front : List ℕ) × (z : ℕ) × (c ∷ f ≡ front ++ z ∷ []) × IsPlain z
ends-IsPlain c [] h = ([], c, refl, h.0)
ends-IsPlain c (d ∷ f) h =
    let (front, z, same, plain) = ends-IsPlain d f h.1 in
    (c ∷ front, z, ap (λ (r : List ℕ). c ∷ r) same, plain)

pub trim_space-fields :
    (b : ℕ) (bs : List ℕ) (c : ℕ) (f : List ℕ)
    → IsPlain b
    → All IsPlain (c ∷ f)
    → trim_space ((b ∷ bs) ++ c ∷ f) ≡ (b ∷ bs) ++ c ∷ f
trim_space-fields b bs c f h plain =
    let (front, z, same, z_plain) = ends-IsPlain c f plain in
    rw (same, ← append_assoc bs front (z ∷ [])) (trim_space-plain b z (bs ++ front) h z_plain)

-- The date as the API writes it, `2024-01-15T10` and what follows the hour.
abbrev pub timestamp : ℕ → ℕ → ℕ → ℕ → List ℕ → List ℕ
timestamp year month day hour rest =
    decimal 4 year
    ++ b'-' ∷ decimal 2 month
    ++ b'-' ∷ decimal 2 day
    ++ b'T' ∷ decimal 2 hour
    ++ rest

atoi-decimal_4 : (n : ℕ) → n < 10000 → atoi (decimal 4 n) ≡ some (pos n)
unfolding atoi atoi_digits
atoi-decimal_4 n h = ground arith

atoi-decimal_2 : (n : ℕ) → n < 100 → atoi (decimal 2 n) ≡ some (pos n)
unfolding atoi atoi_digits
atoi-decimal_2 n h = ground arith

pub parse_not_before-timestamp :
    (year month day hour : ℕ) (rest : List ℕ)
    → year < 10000
    → month < 100
    → day < 100
    → hour < 100
    → parse_not_before (timestamp year month day hour rest)
      ≡ ok (pos year, pos month, pos day, pos hour)
unfolding parse_not_before
parse_not_before-timestamp year month day hour rest y m d h =
    rw (atoi-decimal_4 year y, atoi-decimal_2 month m, atoi-decimal_2 day d, atoi-decimal_2 hour h)
      (ground arith)

All-append : (xs ys : List ℕ) → All IsPlain xs → All IsPlain ys → All IsPlain (xs ++ ys)
All-append [] ys h h' = h'
All-append (x ∷ xs) ys h h' = (h.0, All-append xs ys h.1 h')

digit-IsPlain : (n : ℕ) → IsPlain (48 + n % 10)
digit-IsPlain n = ground arith

decimal-IsPlain : (w n : ℕ) → All IsPlain (decimal w n)
decimal-IsPlain zero n = tt
decimal-IsPlain (suc w) n =
    All-append (decimal w (n / 10)) ((48 + n % 10) ∷ []) (decimal-IsPlain w (n / 10))
      (digit-IsPlain n, tt)

pub timestamp-IsPlain :
    (year month day hour : ℕ) (rest : List ℕ)
    → All IsPlain rest
    → All IsPlain (timestamp year month day hour rest)
timestamp-IsPlain year month day hour rest h =
    let y = decimal-IsPlain 4 year in
    let ym =
      All-append (decimal 4 year) (b'-' ∷ decimal 2 month) y
        (ground arith, decimal-IsPlain 2 month) in
    let ymd =
      All-append (decimal 4 year ++ b'-' ∷ decimal 2 month) (b'-' ∷ decimal 2 day) ym
        (ground arith, decimal-IsPlain 2 day) in
    let ymdh =
      All-append (decimal 4 year ++ b'-' ∷ decimal 2 month ++ b'-' ∷ decimal 2 day)
        (b'T' ∷ decimal 2 hour) ymd (ground arith, decimal-IsPlain 2 hour) in
    All-append
      (decimal 4 year ++ b'-' ∷ decimal 2 month ++ b'-' ∷ decimal 2 day ++ b'T' ∷ decimal 2 hour)
      rest ymdh h
