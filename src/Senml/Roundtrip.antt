-- ===== src/Senml/Roundtrip.antt =====
-- What Encode writes for variables with no time stamp, Decode reads back.
use arduino_cloud_connector.Common.{
  String, false, ◌≡◌, refl, some, List, [], ◌∷◌, str_eq, arith, All, ◌∙◌, ap, sym,
}
use arduino_cloud_connector.Common.Integers.{ℤ, pos}
use arduino_cloud_connector.Variables.Text.{append}
use arduino_cloud_connector.Senml.{
  Floats, resolve_time, Record, Variable, Value, int, float, string, bool, unsupported, validate,
  to_variables, variables_from, variable_for, variable_from_record, resolved_name, resolved_time,
  value_count, has_value, record_errors, blank_record, encode_records,
}
use arduino_cloud_connector.Senml.Plain.{
  Lawful, Supported, IsPlain, filled, plain_record, plain_records, sorted, filled_kept, All-sorted,
  encode_records-plain_records,
}

module _ {F I : Type 0} (fl : Floats F I) where
  module _ (laws : Lawful fl) where
    resolved_name-plain_records :
        (vs : List (Variable F I)) → resolved_name fl "" (plain_records fl vs) ≡ ""
    unfolding resolved_name
    resolved_name-plain_records [] = refl
    resolved_name-plain_records (v ∷ vs) =
        rw (resolved_name, (filled_kept fl v.value (blank_record fl v.name fl.zero)).2)
          (resolved_name-plain_records vs)

    resolved_time-plain_records :
        (vs : List (Variable F I)) → resolved_time fl fl.zero (plain_records fl vs) ≡ fl.zero
    unfolding resolved_time
    resolved_time-plain_records [] = refl
    resolved_time-plain_records (v ∷ vs) =
        rw
          (
            resolved_time,
            (filled_kept fl v.value (blank_record fl v.name fl.zero)).3,
            laws.zero_is_zero,
          )
          (resolved_time-plain_records vs)

    resolve_zero : resolve_time fl fl.zero ≡ pos 0
    unfolding resolve_time
    resolve_zero = rw laws.zero_is_zero refl

    variable_for-filled :
        (v : Value F I) (name : String)
        → str_eq name "" ≡ false
        → Supported fl v
        → variable_for fl "" fl.zero (filled fl v (blank_record fl name fl.zero))
          ≡ some (record { name = name; value = v; timestamp = pos 0 })
    unfolding variable_from_record append
    variable_for-filled (int n) name e s = rw (e, laws.plus_zero, resolve_zero) refl
    variable_for-filled (float x) name e s = rw (e, laws.plus_zero, resolve_zero) refl
    variable_for-filled (string t) name e s = rw (e, laws.plus_zero, resolve_zero) refl
    variable_for-filled (bool b) name e s = rw (e, laws.plus_zero, resolve_zero) refl
    variable_for-filled unsupported name e s = ground arith

    variable_for-plain_record :
        (v : Variable F I) → IsPlain fl v → variable_for fl "" fl.zero (plain_record fl v) ≡ some v
    variable_for-plain_record v p =
        variable_for-filled v.value v.name p.named p.supported
        ∙ ap (λ (t : ℤ). some (record { name = v.name; value = v.value; timestamp = t }))
            (sym p.timeless)

    variables_from-plain_records :
        (vs : List (Variable F I))
        → All (IsPlain fl) vs
        → variables_from fl "" fl.zero (plain_records fl vs) ≡ vs
    unfolding variables_from
    variables_from-plain_records [] p = refl
    variables_from-plain_records (v ∷ vs) p =
        rw (variable_for-plain_record v p.0, variables_from-plain_records vs p.1) refl

    record_errors-filled :
        (v : Value F I) (name : String)
        → str_eq name "" ≡ false
        → Supported fl v
        → record_errors fl "" (filled fl v (blank_record fl name fl.zero)) ≡ []
    unfolding value_count has_value append
    record_errors-filled (int n) name e s = ground arith
    record_errors-filled (float x) name e s = ground arith
    record_errors-filled (string t) name e s = ground arith
    record_errors-filled (bool b) name e s = ground arith
    record_errors-filled unsupported name e s = ground arith

    validate-plain_records :
        (vs : List (Variable F I)) → All (IsPlain fl) vs → validate fl "" (plain_records fl vs) ≡ []
    unfolding validate
    validate-plain_records [] p = refl
    validate-plain_records (v ∷ vs) p =
        rw
          (
            (filled_kept fl v.value (blank_record fl v.name fl.zero)).2,
            record_errors-filled v.value v.name p.0.named p.0.supported,
            validate-plain_records vs p.1,
          )
          refl

    -- If in float64 zero is equal to zero and its sum with itself is zero, then for variables with
    -- names, supported values and no time stamps, as the daemon publishes them, Encode has records
    -- to marshal; the checks of Decode accept these records, and toVariables makes of them the same
    -- variables, again with no time stamps, in the order of their names.
    pub decode-encode :
        (vs : List (Variable F I))
        → All (IsPlain fl) vs
        → (rs : List (Record F I)) × (encode_records fl vs ≡ some rs)
          × (validate fl "" rs ≡ [])
          × (to_variables fl rs ≡ sorted fl vs)
    unfolding to_variables
    decode-encode vs p = (
      plain_records fl (sorted fl vs),
      encode_records-plain_records fl laws vs p,
      validate-plain_records (sorted fl vs) (All-sorted fl vs p),
      rw (resolved_name-plain_records (sorted fl vs), resolved_time-plain_records (sorted fl vs))
          (variables_from-plain_records (sorted fl vs) (All-sorted fl vs p)),
    )
