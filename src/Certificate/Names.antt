-- ===== src/Certificate/Names.antt =====
-- compressed_cert.go: a certName and the element that appendName and its header append.
use arduino_cloud_connector.Common.{
  ℕ, ◌+◌, ◌<◌, ◌≡◌, refl, false, List, [], ◌∷◌, ◌++◌, sym, length, length-append, ◌==◌, arith,
}
use mathlib.Core.List.{append_assoc, append-nil}
use arduino_cloud_connector.Certificate.Elements.{encode}
use arduino_cloud_connector.Certificate.Primitives.{
  CertName, append_sequence_header, name_length, append_name, emit, field_length,
}
use arduino_cloud_connector.Certificate.Layout.{encode-short, header-encode, small_byte}

-- The attribute of a name: a set of one sequence of an object identifier and a printable string.
abbrev pub attribute : List ℕ → ℕ → List ℕ
attribute value typ =
    encode 0x31 (encode 0x30 (encode 0x06 (0x55 ∷ 0x04 ∷ typ ∷ []) ++ encode 0x13 value))

abbrev pub attribute_if_set : List ℕ → ℕ → List ℕ
attribute_if_set [] typ = []
attribute_if_set (b ∷ bs) typ = attribute (b ∷ bs) typ

attribute-short :
    (value : List ℕ) (typ : ℕ)
    → length value < 119
    → attribute value typ
      ≡ 0x31
        ∷ (length value + 9)
        ∷ 0x30
        ∷ (length value + 7)
        ∷ 0x06
        ∷ 0x03
        ∷ 0x55
        ∷ 0x04
        ∷ typ
        ∷ 0x13
        ∷ length value
        ∷ value
attribute-short value typ h =
    rw
      (
        encode-short 0x06 3 (0x55 ∷ 0x04 ∷ typ ∷ []) refl (omega arith),
        encode-short 0x13 (length value) value refl (omega arith),
        encode-short 0x30 (length value + 7)
            (0x06 ∷ 0x03 ∷ 0x55 ∷ 0x04 ∷ typ ∷ 0x13 ∷ length value ∷ value) (omega arith)
            (omega arith),
        encode-short 0x31 (length value + 9)
            (0x30
              ∷ (length value + 7)
              ∷ 0x06
              ∷ 0x03
              ∷ 0x55
              ∷ 0x04
              ∷ typ
              ∷ 0x13
              ∷ length value
              ∷ value)
            (omega arith) (omega arith),
      )
      refl

nonempty : (b : ℕ) (bs : List ℕ) → (length (b ∷ bs) == 0) ≡ false
nonempty b bs = ground arith

emit-attribute :
    (buf value : List ℕ) (typ : ℕ)
    → length value < 119
    → emit buf value typ ≡ buf ++ attribute_if_set value typ
unfolding emit
emit-attribute buf [] typ h = sym (append-nil buf)
emit-attribute buf (b ∷ bs) typ h =
    rw
      (
        attribute-short (b ∷ bs) typ h,
        nonempty b bs,
        small_byte (length (b ∷ bs)) (omega arith),
        small_byte (length (b ∷ bs) + 9) (omega arith),
        small_byte (length (b ∷ bs) + 7) (omega arith),
      )
      (simp append_assoc)

-- The distinguished name of the set fields, in the order country, state, locality, organisation,
-- organisational unit, common name.
unfoldable pub name_content : CertName → List ℕ
name_content n =
    attribute_if_set n.country 0x06
    ++ attribute_if_set n.state 0x08
    ++ attribute_if_set n.locality 0x07
    ++ attribute_if_set n.org 0x0a
    ++ attribute_if_set n.org_unit 0x0b
    ++ attribute_if_set n.common_name 0x03

-- Every field is short enough for its attribute to have lengths of one byte.
pub record IsName (n : CertName) : Type 0 where
  pub country : length n.country < 119
  pub state : length n.state < 119
  pub locality : length n.locality < 119
  pub org : length n.org < 119
  pub org_unit : length n.org_unit < 119
  pub common_name : length n.common_name < 119

append_name-content :
    (buf : List ℕ) (n : CertName) → IsName n → append_name buf n ≡ buf ++ name_content n
unfolding append_name name_content
append_name-content buf n h =
    rw
      (
        emit-attribute buf n.country 0x06 h.country,
        emit-attribute _ n.state 0x08 h.state,
        emit-attribute _ n.locality 0x07 h.locality,
        emit-attribute _ n.org 0x0a h.org,
        emit-attribute _ n.org_unit 0x0b h.org_unit,
        emit-attribute _ n.common_name 0x03 h.common_name,
      )
      (simp append_assoc)

length-attribute_if_set :
    (value : List ℕ) (typ : ℕ)
    → length value < 119
    → length (attribute_if_set value typ) ≡ field_length value
length-attribute_if_set [] typ h = refl
length-attribute_if_set (b ∷ bs) typ h = rw (attribute-short (b ∷ bs) typ h) (ground arith)

-- certName.length is the length of what appendName appends.
pub length-name_content : (n : CertName) → IsName n → length (name_content n) ≡ name_length n
unfolding name_content name_length
length-name_content n h = simp (
  length-append,
  length-attribute_if_set _ 0x06 h.country,
  length-attribute_if_set _ 0x08 h.state,
  length-attribute_if_set _ 0x07 h.locality,
  length-attribute_if_set _ 0x0a h.org,
  length-attribute_if_set _ 0x0b h.org_unit,
  length-attribute_if_set _ 0x03 h.common_name,
)

pub name-encode :
    (buf : List ℕ) (n : CertName)
    → IsName n
    → length (name_content n) < 65536
    → append_name (append_sequence_header buf (name_length n)) n
      ≡ buf ++ encode 0x30 (name_content n)
name-encode buf n h short =
    rw
      (
        append_name-content (append_sequence_header buf (name_length n)) n h,
        ← length-name_content n h,
      )
      (header-encode buf (name_content n) short)
