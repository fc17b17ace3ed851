-- ===== src/Certificate/Text.antt =====
-- What compressed_cert.go uses of Go's strings, strconv and hex, on the bytes of a string.
use arduino_cloud_connector.Common.{
  ℕ, zero, suc, ◌+◌, ◌-◌, ◌*◌, Bool, ◌&&◌, ◌||◌, Option, none, some, List, [], ◌∷◌, length, leb,
  ◌==◌, drop, if◌then◌else◌,
}
use mathlib.Core.List.{reverse}
use arduino_cloud_connector.Common.Integers.{ℤ, pos, negate}

-- unicode.IsSpace of a rune of one, two or three bytes in UTF-8
abbrev pub is_ascii_space : ℕ → Bool
is_ascii_space b = b == 0x20 || (leb 0x09 b && leb b 0x0d)

abbrev pub is_space_2 : ℕ → ℕ → Bool
is_space_2 b c = b == 0xc2 && (c == 0x85 || c == 0xa0)

abbrev pub is_space_3 : ℕ → ℕ → ℕ → Bool
is_space_3 b c d =
    (b == 0xe1 && (c == 0x9a && d == 0x80))
    || ((b == 0xe2
          && (c == 0x80 && ((leb 0x80 d && leb d 0x8a) || (d == 0xa8 || (d == 0xa9 || d == 0xaf)))))
        || ((b == 0xe2 && (c == 0x81 && d == 0x9f)) || (b == 0xe3 && (c == 0x80 && d == 0x80))))

-- How many bytes the space takes that the bytes begin with, 0 if they begin with none.
unfoldable pub leading_space : List ℕ → ℕ
leading_space [] = 0
leading_space (b ∷ []) = if is_ascii_space b then 1 else 0
leading_space (b ∷ c ∷ []) = if is_ascii_space b then 1 else if is_space_2 b c then 2 else 0
leading_space (b ∷ c ∷ d ∷ bs) =
    if is_ascii_space b then 1 else if is_space_2 b c then 2 else if is_space_3 b c d then 3 else 0

-- The same at the end, of the reversed bytes.
unfoldable pub trailing_space : List ℕ → ℕ
trailing_space [] = 0
trailing_space (b ∷ []) = if is_ascii_space b then 1 else 0
trailing_space (b ∷ c ∷ []) = if is_ascii_space b then 1 else if is_space_2 c b then 2 else 0
trailing_space (b ∷ c ∷ d ∷ bs) =
    if is_ascii_space b then 1 else if is_space_2 c b then 2 else if is_space_3 d c b then 3 else 0

-- Each round takes a byte at least, so as many rounds as there are bytes are enough.
unfoldable pub trim_with : (List ℕ → ℕ) → ℕ → List ℕ → List ℕ
trim_with space zero bs = bs
trim_with space (suc fuel) bs =
    let rest = trim_with space fuel (drop (space bs) bs) in if space bs == 0 then bs else rest

unfoldable pub trim_space : List ℕ → List ℕ
trim_space s =
    let left = trim_with leading_space (length s) s in
    reverse (trim_with trailing_space (length left) (reverse left))

abbrev pub onto_first : ℕ → List (List ℕ) → List (List ℕ)
onto_first b [] = (b ∷ []) ∷ []
onto_first b (p ∷ ps) = (b ∷ p) ∷ ps

-- strings.Split(s, "|")
unfoldable pub split_bars : List ℕ → List (List ℕ)
split_bars [] = [] ∷ []
split_bars (b ∷ s) =
    let parts = split_bars s in if b == b'|' then [] ∷ parts else onto_first b parts

abbrev pub hex_digit : ℕ → Option ℕ
hex_digit c =
    if leb b'0' c && leb c b'9'
    then some (c - b'0')
    else if leb b'a' c && leb c b'f'
    then some (c - b'a' + 10)
    else if leb b'A' c && leb c b'F'
    then some (c - b'A' + 10)
    else none

abbrev pub hex_byte : Option ℕ → Option ℕ → Option (List ℕ) → Option (List ℕ)
hex_byte (some a) (some b) (some bs) = some ((a * 16 + b) ∷ bs)
hex_byte _ _ _ = none

-- hex.DecodeString
unfoldable pub decode_hex : List ℕ → Option (List ℕ)
decode_hex [] = some []
decode_hex (c ∷ []) = none
decode_hex (c ∷ d ∷ s) = hex_byte (hex_digit c) (hex_digit d) (decode_hex s)

-- The digits of strconv.Atoi after those read so far. The texts of the dates are too short to overflow.
unfoldable pub atoi_digits : ℕ → List ℕ → Option ℕ
atoi_digits n [] = some n
atoi_digits n (c ∷ s) =
    let rest = atoi_digits (n * 10 + (c - b'0')) s in
    if leb b'0' c && leb c b'9' then rest else none

abbrev pub unsigned : List ℕ → Option ℕ
unsigned [] = none
unsigned (c ∷ s) = atoi_digits 0 (c ∷ s)

abbrev pub positive : Option ℕ → Option ℤ
positive none = none
positive (some n) = some (pos n)

abbrev pub negative : Option ℕ → Option ℤ
negative none = none
negative (some n) = some (negate n)

-- strconv.Atoi
unfoldable pub atoi : List ℕ → Option ℤ
atoi [] = none
atoi (c ∷ s) =
    if c == b'-'
    then negative (unsigned s)
    else if c == b'+'
    then positive (unsigned s)
    else positive (unsigned (c ∷ s))
