-- ===== src/Senml/Plain.antt =====
-- The records that Encode makes of variables with no time stamp.
use arduino_cloud_connector.Common.{
  true, false, ◌≡◌, refl, some, List, [], ◌∷◌, str_eq, arith, All, if◌then◌else◌, Bool-cases, inl,
  inr, ap,
}
use arduino_cloud_connector.Common.Integers.{pos}
use arduino_cloud_connector.Variables.Text.{text_leb}
use arduino_cloud_connector.Senml.{
  Floats, Record, Variable, Value, int, float, string, bool, unsupported, int64, float64,
  encode_time, blank_record, record_for, record_from_variable, records_of, insert_record,
  sort_records, to_records, min_time, based, encode_records,
}

-- In float64, 0 == 0 and 0 + 0 is 0.
pub record Lawful {F I : Type 0} (fl : Floats F I) : Type 0 where
  pub zero_is_zero : fl.is_zero fl.zero ≡ true
  pub plus_zero : fl.plus fl.zero fl.zero ≡ fl.zero

module _ {F I : Type 0} (fl : Floats F I) where
  -- A variable of a packet: a name, a value that the codec supports, no time.
  abbrev pub Supported : Value F I → Type 0
  Supported unsupported = ⊥
  Supported (int n) = Unit
  Supported (float x) = Unit
  Supported (string s) = Unit
  Supported (bool b) = Unit

  pub record IsPlain (v : Variable F I) : Type 0 where
    pub named : str_eq v.name "" ≡ false
    pub supported : Supported v.value
    pub timeless : v.timestamp ≡ pos 0

  abbrev pub filled : Value F I → Record F I → Record F I
  filled (int n) r = record r { value = some (int64 n) }
  filled (float x) r = record r { value = some (float64 x) }
  filled (string s) r = record r { string_value = some s }
  filled (bool b) r = record r { bool_value = some b }
  filled unsupported r = r

  -- The record of a plain variable.
  abbrev pub plain_record : Variable F I → Record F I
  plain_record v = filled v.value (blank_record fl v.name fl.zero)

  pub insert_variable : Variable F I → List (Variable F I) → List (Variable F I)
  insert_variable v [] = v ∷ []
  insert_variable v (w ∷ ws) =
      if text_leb v.name w.name then v ∷ w ∷ ws else w ∷ insert_variable v ws

  -- The variables in the order of their names.
  pub sorted : List (Variable F I) → List (Variable F I)
  sorted [] = []
  sorted (v ∷ vs) = insert_variable v (sorted vs)

  abbrev pub plain_records : List (Variable F I) → List (Record F I)
  plain_records [] = []
  plain_records (v ∷ vs) = plain_record v ∷ plain_records vs

  record_for-filled :
      (v : Value F I) (r : Record F I) → Supported v → record_for fl v r ≡ some (filled v r)
  record_for-filled (int n) r s = refl
  record_for-filled (float x) r s = refl
  record_for-filled (string t) r s = refl
  record_for-filled (bool b) r s = refl
  record_for-filled unsupported r s = ground arith

  -- What filling in a value leaves alone.
  pub filled_kept :
      (v : Value F I) (r : Record F I)
      → ((filled v r).name ≡ r.name)
        × ((filled v r).time ≡ r.time)
        × ((filled v r).base_name ≡ r.base_name)
        × ((filled v r).base_time ≡ r.base_time)
  filled_kept (int n) r = (refl, refl, refl, refl)
  filled_kept (float x) r = (refl, refl, refl, refl)
  filled_kept (string t) r = (refl, refl, refl, refl)
  filled_kept (bool b) r = (refl, refl, refl, refl)
  filled_kept unsupported r = (refl, refl, refl, refl)

  insert_record-plain_records :
      (v : Variable F I) (ws : List (Variable F I))
      → insert_record fl (plain_record v) (plain_records ws) ≡ plain_records (insert_variable v ws)
  unfolding insert_record insert_variable
  insert_record-plain_records v [] = refl
  insert_record-plain_records v (w ∷ ws) =
      let a = (filled_kept v.value (blank_record fl v.name fl.zero)).0 in
      let b = (filled_kept w.value (blank_record fl w.name fl.zero)).0 in
      elim (Bool-cases (text_leb v.name w.name)) [
        | inl e ↦ rw (a, b, e) refl
        | inr e ↦
            rw (a, b, e)
              (ap (λ (rs : List (Record F I)). plain_record w ∷ rs)
                (insert_record-plain_records v ws))
      ]

  sort_records-plain_records :
      (vs : List (Variable F I)) → sort_records fl (plain_records vs) ≡ plain_records (sorted vs)
  unfolding sort_records sorted
  sort_records-plain_records [] = refl
  sort_records-plain_records (v ∷ vs) =
      rw (sort_records-plain_records vs) (insert_record-plain_records v (sorted vs))

  All-insert_variable :
      (v : Variable F I) (ws : List (Variable F I))
      → IsPlain v
      → All IsPlain ws
      → All IsPlain (insert_variable v ws)
  unfolding insert_variable
  All-insert_variable v [] p a = (p, tt)
  All-insert_variable v (w ∷ ws) p a = elim (Bool-cases (text_leb v.name w.name)) [
    | inl e ↦ rw e (p, a)
    | inr e ↦ rw e (a.0, All-insert_variable v ws p a.1)
  ]

  pub All-sorted : (vs : List (Variable F I)) → All IsPlain vs → All IsPlain (sorted vs)
  unfolding sorted
  All-sorted [] a = tt
  All-sorted (v ∷ vs) a = All-insert_variable v (sorted vs) a.0 (All-sorted vs a.1)

  module _ (laws : Lawful fl) where
    records_of-plain_records :
        (vs : List (Variable F I)) → All IsPlain vs → records_of fl vs ≡ some (plain_records vs)
    unfolding records_of record_from_variable encode_time
    records_of-plain_records [] p = refl
    records_of-plain_records (v ∷ vs) p =
        rw
          (
            p.0.timeless,
            encode_time,
            record_for-filled v.value (blank_record fl v.name fl.zero) p.0.supported,
            records_of-plain_records vs p.1,
          )
          refl

    min_time-plain_records :
        (vs : List (Variable F I)) → min_time fl fl.zero (plain_records vs) ≡ fl.zero
    unfolding min_time
    min_time-plain_records [] = refl
    min_time-plain_records (v ∷ vs) =
        rw (min_time, (filled_kept v.value (blank_record fl v.name fl.zero)).1, laws.zero_is_zero)
          (min_time-plain_records vs)

    based-plain_records :
        (vs : List (Variable F I)) → based fl (plain_records vs) ≡ plain_records vs
    based-plain_records [] = refl
    based-plain_records (v ∷ vs) =
        rw
          (
            (filled_kept v.value (blank_record fl v.name fl.zero)).1,
            min_time-plain_records vs,
            laws.zero_is_zero,
          )
          refl

    pub encode_records-plain_records :
        (vs : List (Variable F I))
        → All IsPlain vs
        → encode_records fl vs ≡ some (plain_records (sorted vs))
    unfolding encode_records to_records
    encode_records-plain_records vs p =
        rw
          (
            encode_records,
            to_records,
            records_of-plain_records vs p,
            sort_records-plain_records vs,
            based-plain_records (sorted vs),
          )
          refl
