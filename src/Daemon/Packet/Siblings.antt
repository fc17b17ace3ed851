-- ===== src/Daemon/Packet/Siblings.antt =====
-- A published attribute carries its whole property, with the value just set.
use Prim.Native.Char.{Char, code}
use Prim.Native.String.{String}
use arduino_cloud_connector.Common.{
  ℕ, ◌≡◌, ◌≢◌, refl, true, false, Option, none, some, List, [], ◌∷◌, arith, ◌∙◌, sym, ap, Bool,
  eq_refl, eq_iff, str_eq, ◌==◌, if◌then◌else◌,
}
use arduino_cloud_connector.Common.Dict.{lookup, or_zero}
use arduino_cloud_connector.Variables.{
  Variable, Registry, get, with_prefix, set_value, default_time,
}
use arduino_cloud_connector.Variables.Text.{has_prefix}
use arduino_cloud_connector.Variables.Wellformed.{IsWellformed, set_value-IsWellformed}
use arduino_cloud_connector.Variables.SetValue.{get-set_value}
use arduino_cloud_connector.Variables.Prefix.{find, if_set, with_prefix_lem}
use arduino_cloud_connector.Daemon.Packet.{
  joined, attribute_prefix, property_packet, attributes, siblings_or_scalar,
}

joined_prefix :
    (colon : Bool) (c : Char) (s prefix : String) (rest : Option String)
    → joined colon c rest ≡ some prefix
    → ((p : String) → rest ≡ some p → has_prefix p s ≡ true)
    → has_prefix prefix (String.◌∷◌ c s) ≡ true
unfolding has_prefix
joined_prefix true c s prefix rest h k = rw (sym (ap (or_zero "") h)) (ground arith)
joined_prefix false c s prefix none h k = ground arith
joined_prefix false c s prefix (some p) h k =
    rw (sym (ap (or_zero "") h)) (ground (arith, k p refl))

-- The prefix of an attribute's property is a prefix of its name.
has_prefix-attribute_prefix :
    (name prefix : String) → attribute_prefix name ≡ some prefix → has_prefix prefix name ≡ true
unfolding attribute_prefix
has_prefix-attribute_prefix String.[] prefix h = ground arith
has_prefix-attribute_prefix (String.◌∷◌ c s) prefix h =
    joined_prefix (code c == b':') c s prefix (attribute_prefix s) h
      (λ p e. has_prefix-attribute_prefix s p e)

module _ {V : Type 0} where
  -- The value of a variable in the packet for a write.
  abbrev pub sent_value : String → Option V → String → Option (Variable V) → Option (Option V)
  sent_value name value k none = none
  sent_value name value k (some v) = if str_eq name k then some value else some v.value

  lookup-attributes :
      (name k : String) (value : Option V) (vs : List (Variable V))
      → lookup k (attributes name value vs) ≡ sent_value name value k (find k vs)
  unfolding lookup attributes
  lookup-attributes name k value [] = refl
  lookup-attributes name k value (v ∷ vs) =
      ground (
        arith,
        lookup-attributes name k value vs,
        eq_iff v.name k,
        eq_iff v.name name,
        eq_iff name k,
      )

  siblings_or_scalar-some :
      (name k : String) (value : Option V) (vs : List (Variable V)) (v : Variable V)
      → find name vs ≡ some v
      → lookup k (siblings_or_scalar name value vs) ≡ sent_value name value k (find k vs)
  siblings_or_scalar-some name k value [] v h = ground arith
  siblings_or_scalar-some name k value (w ∷ vs) v h = lookup-attributes name k value (w ∷ vs)

  -- What a write leaves under a name, as a packet for it is to show it.
  abbrev pub due : String → Option V → String → Registry V → Option (Option V)
  due name value k r =
      if str_eq name k then some value else sent_value name value k (if_set (get k r))

  -- On a well-formed registry, the packet for a write of a property's attribute at a time other
  -- than zero carries exactly the attributes of that property that were ever set, each with its
  -- value in the registry, and the one just written with the new value.
  pub property_packet-set_value :
      (owner : ℕ → String) (now : ℕ) (name prefix origin : String) (value : Option V) (ts : ℕ)
      (r : Registry V) (k : String)
      → IsWellformed owner r
      → attribute_prefix name ≡ some prefix
      → default_time ts now ≢ 0
      → lookup k (property_packet name value (set_value now name value ts origin r))
        ≡ (if has_prefix prefix k then due name value k r else none)
  unfolding property_packet
  property_packet-set_value owner now name prefix origin value ts r k w p t =
      let r' = set_value now name value ts origin r in
      let w' = set_value-IsWellformed owner now name value ts origin r w in
      let own = (with_prefix_lem owner prefix r' w').1 name in
      let all = (with_prefix_lem owner prefix r' w').1 k in
      rw p (
        siblings_or_scalar-some name k value (with_prefix prefix r')
          (record { name = name; value = value; timestamp = default_time ts now })
          (own
            ∙ rw
                (
                  has_prefix-attribute_prefix name prefix p,
                  get-set_value owner now name value ts origin r name w,
                  eq_refl name,
                )
                (ground arith))
        ∙ rw (all, get-set_value owner now name value ts origin r k w) (ground arith))
