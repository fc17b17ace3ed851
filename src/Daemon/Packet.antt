-- ===== src/Daemon/Packet.antt =====
-- propertyPacket and publishVariable: what is published for a value that an app has set.
pub mod Siblings
use Prim.Native.Char.{Char, code}
use Prim.Native.String.{String}
use arduino_cloud_connector.Common.{
  Bool, true, false, Option, none, some, List, [], ◌∷◌, ◌==◌, ◌&&◌, not, str_eq, if◌then◌else◌,
}
use arduino_cloud_connector.Common.Dict.{Dict}
use arduino_cloud_connector.Variables.{Variable, Registry, with_prefix}
use arduino_cloud_connector.Cloud as Cloud

abbrev pub joined : Bool → Char → Option String → Option String
joined true c rest = some (String.◌∷◌ c String.[])
joined false c none = none
joined false c (some p) = some (String.◌∷◌ c p)

-- strings.Cut(name, ":"): the part before the first colon with that colon, which is the prefix of the
-- property's attributes, or `none` where there is no colon.
unfoldable pub attribute_prefix : String → Option String
attribute_prefix String.[] = none
attribute_prefix (String.◌∷◌ c s) = joined (code c == b':') c (attribute_prefix s)

-- The thing whose topic a value goes to: the daemon is in Run and its Cloud FSM has a thing id.
abbrev pub thing_of : Bool → Option Cloud.Snapshot → Option String
thing_of is_run none = none
thing_of is_run (some cloud) =
    if is_run && not (str_eq cloud.thing_id "") then some cloud.thing_id else none

module _ {V : Type 0} where
  abbrev pub scalar : String → Option V → Dict (Option V)
  scalar name value = (name, value) ∷ []

  unfoldable pub attributes : String → Option V → List (Variable V) → Dict (Option V)
  attributes name value [] = []
  attributes name value (v ∷ vs) =
      (v.name, if str_eq v.name name then value else v.value) ∷ attributes name value vs

  abbrev pub siblings_or_scalar : String → Option V → List (Variable V) → Dict (Option V)
  siblings_or_scalar name value [] = scalar name value
  siblings_or_scalar name value (v ∷ vs) = attributes name value (v ∷ vs)

  abbrev pub packet_for : Option String → String → Option V → Registry V → Dict (Option V)
  packet_for none name value reg = scalar name value
  packet_for (some prefix) name value reg = siblings_or_scalar name value (with_prefix prefix reg)

  unfoldable pub property_packet : String → Option V → Registry V → Dict (Option V)
  property_packet name value reg = packet_for (attribute_prefix name) name value reg

  -- The thing and the packet that are encoded and published, or ErrNotSteady.
  unfoldable pub publish_variable :
      Bool
      → Option Cloud.Snapshot
      → String
      → Option V
      → Registry V
      → Option (String × Dict (Option V))
  publish_variable is_run cloud name value reg = elim (thing_of is_run cloud) [
    | none ↦ none
    | some thing_id ↦ some (thing_id, property_packet name value reg)
  ]
