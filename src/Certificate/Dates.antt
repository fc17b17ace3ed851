-- ===== src/Certificate/Dates.antt =====
-- compressed_cert.go: appendDate and the element of the time that it appends.
use arduino_cloud_connector.Common.{
  ℕ, zero, suc, ◌+◌, ◌/◌, ◌%◌, ◌≤◌, ◌<◌, ◌≡◌, refl, List, [], ◌∷◌, ◌++◌, length, ltb, if◌then◌else◌,
  arith, Bool-cases, inl, inr,
}
use mathlib.Core.List.{append_assoc}
use arduino_cloud_connector.Common.Integers.{pos}
use arduino_cloud_connector.Certificate.Elements.{encode}
use arduino_cloud_connector.Certificate.Primitives.{append_date, append_year}
use arduino_cloud_connector.Certificate.Layout.{encode-short}
use arduino_cloud_connector.Certificate.Primitives.{two_digits}

-- The last `w` decimal digits of n, in ASCII.
abbrev pub decimal : ℕ → ℕ → List ℕ
decimal zero n = []
decimal (suc w) n = decimal w (n / 10) ++ (48 + n % 10) ∷ []

-- UTCTime (two digits of the year) up to 2049, GeneralizedTime (four) after; minute and second 0.
abbrev pub time_tag : ℕ → ℕ
time_tag year = if ltb 2049 year then 0x18 else 0x17

abbrev pub year_digits : ℕ → List ℕ
year_digits year = if ltb 2049 year then decimal 4 year else decimal 2 (year % 100)

abbrev pub time_content : ℕ → ℕ → ℕ → ℕ → List ℕ
time_content year month day hour =
    year_digits year
    ++ decimal 2 month
    ++ decimal 2 day
    ++ decimal 2 hour
    ++ b'0' ∷ b'0' ∷ b'0' ∷ b'0' ∷ b'Z' ∷ []

two_digits-decimal : (n : ℕ) → n < 100 → two_digits (pos n) ≡ decimal 2 n
two_digits-decimal n h = ground arith

abbrev time_length : ℕ → ℕ
time_length year = if ltb 2049 year then 15 else 13

late_digits :
    (year : ℕ) (buf : List ℕ)
    → 2049 < year
    → year < 10000
    → append_year buf (pos year) ≡ buf ++ 0x18 ∷ 0x0f ∷ decimal 4 year
late_digits year buf h h' = ground (arith, append_assoc buf (0x18 ∷ 0x0f ∷ []) (decimal 4 year))

early_digits :
    (year : ℕ) (buf : List ℕ)
    → 2000 ≤ year
    → year ≤ 2049
    → append_year buf (pos year) ≡ buf ++ 0x17 ∷ 0x0d ∷ decimal 2 (year % 100)
early_digits year buf h h' =
    ground (arith, append_assoc buf (0x17 ∷ 0x0d ∷ []) (decimal 2 (year % 100)))

append_year-digits :
    (year : ℕ) (buf : List ℕ)
    → 2000 ≤ year
    → year < 10000
    → append_year buf (pos year) ≡ buf ++ time_tag year ∷ time_length year ∷ year_digits year
append_year-digits year buf h h' = elim (Bool-cases (ltb 2049 year)) [
  | inl late ↦ rw (late_digits year buf (ground arith) h', late) refl
  | inr early ↦ rw (early_digits year buf h (ground arith), early) refl
]

length-time_content :
    (year month day hour : ℕ) → length (time_content year month day hour) ≡ time_length year
length-time_content year month day hour = ground arith

time_length-lt : (year : ℕ) → time_length year < 128
time_length-lt year = ground arith

pub date-encode :
    (buf : List ℕ) (year month day hour : ℕ)
    → 2000 ≤ year
    → year < 10000
    → month < 100
    → day < 100
    → hour < 100
    → append_date buf (pos year) (pos month) (pos day) (pos hour)
      ≡ buf ++ encode (time_tag year) (time_content year month day hour)
unfolding append_date
date-encode buf year month day hour h h' m d o =
    rw
      (
        append_year-digits year buf h h',
        two_digits-decimal month m,
        two_digits-decimal day d,
        two_digits-decimal hour o,
        encode-short (time_tag year) (time_length year) (time_content year month day hour)
            (length-time_content year month day hour) (time_length-lt year),
      )
      (simp append_assoc)

pub length-encode_time :
    (year month day hour : ℕ)
    → length (encode (time_tag year) (time_content year month day hour))
      ≡ (if ltb 2049 year then 17 else 15)
length-encode_time year month day hour =
    rw
      (encode-short (time_tag year) (time_length year) (time_content year month day hour)
        (length-time_content year month day hour) (time_length-lt year))
      (ground (arith, length-time_content year month day hour))
