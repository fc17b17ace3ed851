-- ===== src/Certificate/Elements.antt =====
-- The Distinguished Encoding Rules (X.690, definite lengths below 2^16) that the certificate of
-- compressed_cert.go follows: an element as its tag, length and content, and a reader of elements.
use arduino_cloud_connector.Common.{
  ℕ, zero, suc, ◌+◌, ◌*◌, ◌/◌, ◌%◌, ◌≤◌, ◌<◌, ◌≡◌, refl, Option, none, some, List, [], ◌∷◌, ◌++◌,
  length, length-append, All, take, drop, take-append, drop-append, ltb, leb, ◌==◌, if◌then◌else◌,
  arith,
}
use mathlib.Core.Path.{subst}
use mathlib.Core.List.{append_assoc, append-nil}

unfoldable pub encode_length : ℕ → List ℕ
encode_length n =
    if ltb n 128
    then n ∷ []
    else if ltb n 256
    then 0x81 ∷ n ∷ []
    else 0x82 ∷ (n / 256) ∷ (n % 256) ∷ []

unfoldable pub encode : ℕ → List ℕ → List ℕ
encode tag content = tag ∷ encode_length (length content) ++ content

-- A tag and a content.
abbrev pub Element : Type 0
Element = ℕ × List ℕ

unfoldable pub encode_all : List Element → List ℕ
encode_all [] = []
encode_all ((tag, content) ∷ es) = encode tag content ++ encode_all es

-- The length octets: the length and what follows them.
unfoldable pub read_length : List ℕ → Option (ℕ × List ℕ)
read_length [] = none
read_length (b ∷ []) = if ltb b 128 then some (b, []) else none
read_length (b ∷ c ∷ []) =
    if ltb b 128 then some (b, c ∷ []) else if b == 0x81 then some (c, []) else none
read_length (b ∷ c ∷ d ∷ rest) =
    if ltb b 128
    then some (b, c ∷ d ∷ rest)
    else if b == 0x81
    then some (c, d ∷ rest)
    else if b == 0x82
    then some (c * 256 + d, rest)
    else none

abbrev pub cut_element : ℕ → Option (ℕ × List ℕ) → Option (Element × List ℕ)
cut_element tag none = none
cut_element tag (some (n, rest)) =
    if leb n (length rest) then some ((tag, take n rest), drop n rest) else none

unfoldable pub read_element : List ℕ → Option (Element × List ℕ)
read_element [] = none
read_element (tag ∷ rest) = cut_element tag (read_length rest)

abbrev pub add_element : Element → Option (List Element) → Option (List Element)
add_element e none = none
add_element e (some es) = some (e ∷ es)

abbrev pub add_rest :
    (List ℕ → Option (List Element)) → Option (Element × List ℕ) → Option (List Element)
add_rest read none = none
add_rest read (some (e, rest)) = add_element e (read rest)

-- Each element takes a byte at least, so as much fuel as there are bytes is enough.
unfoldable pub read_elements : ℕ → List ℕ → Option (List Element)
read_elements fuel [] = some []
read_elements zero (b ∷ bs) = none
read_elements (suc fuel) (b ∷ bs) = add_rest (read_elements fuel) (read_element (b ∷ bs))

unfoldable pub read_all : List ℕ → Option (List Element)
read_all bytes = read_elements (length bytes) bytes

read_length-encode_length :
    (n : ℕ) (rest : List ℕ) → n < 65536 → read_length (encode_length n ++ rest) ≡ some (n, rest)
unfolding read_length encode_length
read_length-encode_length n [] h = ground arith
read_length-encode_length n (x ∷ []) h = ground arith
read_length-encode_length n (x ∷ y ∷ rest) h = ground arith

pub read_element-encode :
    (tag : ℕ) (content rest : List ℕ)
    → length content < 65536
    → read_element (encode tag content ++ rest) ≡ some ((tag, content), rest)
unfolding read_element encode
read_element-encode tag content rest h =
    rw
      (
        append_assoc (encode_length (length content)) content rest,
        read_length-encode_length (length content) (content ++ rest) h,
        take-append content rest,
        drop-append content rest,
      )
      (ground (arith, length-append content rest))

-- An element whose content is short enough for the length octets.
abbrev pub IsShort : Element → Type 0
IsShort e = length e.1 < 65536

read_elements_step :
    (fuel tag : ℕ) (content rest : List ℕ)
    → read_elements (suc fuel) (encode tag content ++ rest)
      ≡ add_rest (read_elements fuel) (read_element (encode tag content ++ rest))
unfolding read_elements encode
read_elements_step fuel tag content rest = refl

read_elements_end : (fuel : ℕ) → read_elements fuel [] ≡ some []
unfolding read_elements
read_elements_end fuel = refl

read_elements-encode_all :
    (fuel : ℕ) (es : List Element)
    → length es ≤ fuel
    → All IsShort es
    → read_elements fuel (encode_all es) ≡ some es
unfolding encode_all
read_elements-encode_all fuel [] h short = read_elements_end fuel
read_elements-encode_all zero (e ∷ es) h short = ground arith
read_elements-encode_all (suc fuel) ((tag, content) ∷ es) h short =
    rw
      (
        read_elements_step fuel tag content (encode_all es),
        read_element-encode tag content (encode_all es) short.0,
        read_elements-encode_all fuel es (omega arith) short.1,
      )
      refl

length-encode_all : (es : List Element) → length es ≤ length (encode_all es)
unfolding encode_all encode
length-encode_all [] = omega arith
length-encode_all ((tag, content) ∷ es) = omega (
  arith,
  length-encode_all es,
  length-append (encode_length (length content) ++ content) (encode_all es),
)

-- The reader gives back the elements that were written.
pub read_all-encode_all : (es : List Element) → All IsShort es → read_all (encode_all es) ≡ some es
unfolding read_all
read_all-encode_all es short =
    read_elements-encode_all (length (encode_all es)) es (length-encode_all es) short

pub length-encode : (tag : ℕ) (content : List ℕ) → length (encode tag content) ≤ length content + 4
unfolding encode encode_length
length-encode tag content = ground (arith, length-append (encode_length (length content)) content)

pub length-encode_all_cons :
    (tag : ℕ) (content : List ℕ) (es : List Element)
    → length (encode_all ((tag, content) ∷ es)) ≤ length content + 4 + length (encode_all es)
unfolding encode_all
length-encode_all_cons tag content es =
    omega (arith, length-append (encode tag content) (encode_all es), length-encode tag content)

-- Contents below a bound leave an encoding below a bound.
pub length-encode_all-small :
    (es : List Element) → All (λ e. length e.1 < 160) es → length (encode_all es) ≤ length es * 164
unfolding encode_all
length-encode_all-small [] h = omega arith
length-encode_all-small ((tag, content) ∷ es) h =
    omega (arith, h.0, length-encode_all_cons tag content es, length-encode_all-small es h.1)

pub small-IsShort : (es : List Element) → All (λ e. length e.1 < 160) es → All IsShort es
small-IsShort [] h = tt
small-IsShort (e ∷ es) h = (omega (arith, h.0), small-IsShort es h.1)

pub read_all-encode :
    (tag : ℕ) (content : List ℕ)
    → length content < 65536
    → read_all (encode tag content) ≡ some ((tag, content) ∷ [])
unfolding encode_all
read_all-encode tag content h =
    subst (λ bytes. read_all bytes ≡ some ((tag, content) ∷ [])) (append-nil (encode tag content))
      (read_all-encode_all ((tag, content) ∷ []) (h, tt))
