-- ===== src/Senml/Names.antt =====
-- The base names that validate and toVariables resolve a record with.
use arduino_cloud_connector.Common.{String, false, ◌≡◌, refl, none, some, List, [], ◌∷◌, str_eq}
use arduino_cloud_connector.Variables.Text.{append}
use arduino_cloud_connector.Senml.{
  Floats, resolve_time, Record, Variable, string, to_variables, variables_from, variable_for,
  variable_from_record, resolved_name, resolved_time, cons_if,
}

module _ {F I : Type 0} (fl : Floats F I) where
  -- In a message of two records, the second of which has a base name, toVariables gives the value
  -- of the first record, a text, the name that begins with the second record's base name, whatever
  -- the first record's own base name is.
  pub to_variables_first :
      (r q : Record F I) (text : String)
      → str_eq q.base_name "" ≡ false
      → str_eq (append q.base_name r.name) "" ≡ false
      → r.value ≡ none
      → r.string_value ≡ some text
      → (v : Variable F I) × (vs : List (Variable F I)) × (to_variables fl (r ∷ q ∷ []) ≡ v ∷ vs)
        × (v.name ≡ append q.base_name r.name)
        × (v.value ≡ string text)
  unfolding to_variables resolved_name variables_from variable_from_record
  to_variables_first r q text b n e s = (
    record {
      name = append q.base_name r.name;
      value = string text;
      timestamp = resolve_time fl (fl.plus r.time (resolved_time fl fl.zero (r ∷ q ∷ [])));
    },
    cons_if fl (variable_for fl q.base_name (resolved_time fl fl.zero (r ∷ q ∷ [])) q) [],
    rw (b, n, e, s) refl,
    refl,
    refl,
  )
