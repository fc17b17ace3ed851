-- ===== src/Senml.antt =====
-- internal/senml/record.go and codec.go: records, validate, toVariables, and Encode up to the CBOR
-- bytes. int64 and float64 are the types I and F with the operations that the code uses. The times of
-- resolveTime and encodeTime are in Senml.Time.
mod Time
pub mod Names
pub mod Plain
pub mod Roundtrip
mod Examples
use arduino_cloud_connector.Common.{
  ℕ, ◌+◌, String, Bool, true, false, not, ◌&&◌, ◌||◌, Option, none, some, List, [], ◌∷◌, ◌++◌,
  str_eq, ltb, if◌then◌else◌,
}
use arduino_cloud_connector.Common.Integers.{ℤ}
unfoldable pub use Time.*
use arduino_cloud_connector.Variables.Text.{text_leb, append}

pub data Number (F I : Type 0) : Type 0 where
  int64 : I → Number F I
  float64 : F → Number F I
  nil : Number F I

-- An optional field is a pointer.
pub record Record (F I : Type 0) : Type 0 where
  pub base_name : String
  pub base_time : F
  pub base_unit : String
  pub base_version : ℕ
  pub base_value : Option (Number F I)
  pub base_sum : Option (Number F I)
  pub name : String
  pub unit : String
  pub time : F
  pub update_time : F
  pub value : Option (Number F I)
  pub string_value : Option String
  pub data_value : Option String
  pub bool_value : Option Bool
  pub sum : Option (Number F I)

-- What an interface{} value may hold: `unsupported` is a type that the codec does not support.
pub data Value (F I : Type 0) : Type 0 where
  int : I → Value F I
  float : F → Value F I
  string : String → Value F I
  bool : Bool → Value F I
  unsupported : Value F I

-- The ValueType is that of the value.
pub record Variable (F I : Type 0) : Type 0 where
  pub name : String
  pub value : Value F I
  pub timestamp : ℤ

pub data Error : Type 0 where
  empty_name too_many_values : Error
  unsupported_value : String → Error

abbrev pub one_if_set : {A : Type 0} → Option A → ℕ
one_if_set none = 0
one_if_set (some a) = 1

abbrev pub is_set : {A : Type 0} → Option A → Bool
is_set none = false
is_set (some a) = true

-- baseName and baseTime while the loop goes over the records.
abbrev pub running_name : String → String → String
running_name base name = if str_eq name "" then base else name

module _ {F I : Type 0} (fl : Floats F I) where
  abbrev pub number_is_zero : Number F I → Bool
  number_is_zero (int64 n) = fl.int_is_zero n
  number_is_zero (float64 x) = fl.is_zero x
  number_is_zero nil = true

  abbrev pub is_nonzero : Option (Number F I) → Bool
  is_nonzero none = false
  is_nonzero (some n) = not (number_is_zero n)

  -- n of validate
  unfoldable pub value_count : Record F I → ℕ
  value_count r =
      one_if_set r.value
      + one_if_set r.string_value
      + one_if_set r.bool_value
      + one_if_set r.data_value

  unfoldable pub has_value : Record F I → Bool
  has_value r = ltb 0 (value_count r) || (is_set r.sum || is_nonzero r.base_sum)

  abbrev pub record_errors : String → Record F I → List Error
  record_errors base r =
      (if ltb 1 (value_count r) then too_many_values ∷ [] else [])
      ++ (if has_value r && str_eq (append base r.name) "" then empty_name ∷ [] else [])

  -- The errors that errors.Join collects, in order; the message is valid if there are none.
  unfoldable pub validate : String → List (Record F I) → List Error
  validate base [] = []
  validate base (r ∷ rs) =
      let base' = running_name base r.base_name in record_errors base' r ++ validate base' rs

  -- The first loop of toVariables.
  unfoldable pub resolved_name : String → List (Record F I) → String
  resolved_name base [] = base
  resolved_name base (r ∷ rs) = resolved_name (running_name base r.base_name) rs

  unfoldable pub resolved_time : F → List (Record F I) → F
  resolved_time base [] = base
  resolved_time base (r ∷ rs) =
      resolved_time (if fl.is_zero r.base_time then base else r.base_time) rs

  abbrev pub number_value : Number F I → Value F I
  number_value (int64 n) = int n
  number_value (float64 x) = float x
  number_value nil = float fl.zero

  abbrev pub value_from : Option (Number F I) → Option String → Option Bool → Option (Value F I)
  value_from (some n) s b = some (number_value n)
  value_from none (some s) b = some (string s)
  value_from none none (some b) = some (bool b)
  value_from none none none = none

  unfoldable pub variable_from_record : String → Record F I → ℤ → Option (Variable F I)
  variable_from_record name r ts = elim (value_from r.value r.string_value r.bool_value) [
    | none ↦ none
    | some v ↦ some (record { name = name; value = v; timestamp = ts })
  ]

  abbrev pub cons_if : {A : Type 0} → Option A → List A → List A
  cons_if none vs = vs
  cons_if (some v) vs = v ∷ vs

  abbrev pub variable_for : String → F → Record F I → Option (Variable F I)
  variable_for base_name base_time r =
      let name = append base_name r.name in
      if str_eq name ""
      then none
      else variable_from_record name r (resolve_time fl (fl.plus r.time base_time))

  -- The second loop.
  unfoldable pub variables_from : String → F → List (Record F I) → List (Variable F I)
  variables_from base_name base_time [] = []
  variables_from base_name base_time (r ∷ rs) =
      cons_if (variable_for base_name base_time r) (variables_from base_name base_time rs)

  unfoldable pub to_variables : List (Record F I) → List (Variable F I)
  to_variables rs = variables_from (resolved_name "" rs) (resolved_time fl.zero rs) rs

  -- ── Encode ──

  abbrev pub blank_record : String → F → Record F I
  blank_record name t = record {
    base_name = "";
    base_time = fl.zero;
    base_unit = "";
    base_version = 0;
    base_value = none;
    base_sum = none;
    name = name;
    unit = "";
    time = t;
    update_time = fl.zero;
    value = none;
    string_value = none;
    data_value = none;
    bool_value = none;
    sum = none;
  }

  abbrev pub record_for : Value F I → Record F I → Option (Record F I)
  record_for (int n) r = some (record r { value = some (int64 n) })
  record_for (float x) r = some (record r { value = some (float64 x) })
  record_for (string s) r = some (record r { string_value = some s })
  record_for (bool b) r = some (record r { bool_value = some b })
  record_for unsupported r = none

  unfoldable pub record_from_variable : Variable F I → Option (Record F I)
  record_from_variable v = record_for v.value (blank_record v.name (encode_time fl v.timestamp))

  abbrev pub both : Option (Record F I) → Option (List (Record F I)) → Option (List (Record F I))
  both none rs = none
  both (some r) none = none
  both (some r) (some rs) = some (r ∷ rs)

  -- The first loop of toRecords; an error is `none`.
  unfoldable pub records_of : List (Variable F I) → Option (List (Record F I))
  records_of [] = some []
  records_of (v ∷ vs) = both (record_from_variable v) (records_of vs)

  unfoldable pub insert_record : Record F I → List (Record F I) → List (Record F I)
  insert_record r [] = r ∷ []
  insert_record r (q ∷ qs) = if text_leb r.name q.name then r ∷ q ∷ qs else q ∷ insert_record r qs

  -- slices.SortFunc. Names that are different have one order; records of the same name keep theirs, as in
  -- the insertion sort that it is for at most 12 records.
  unfoldable pub sort_records : List (Record F I) → List (Record F I)
  sort_records [] = []
  sort_records (r ∷ rs) = insert_record r (sort_records rs)

  unfoldable pub to_records : List (Variable F I) → Option (List (Record F I))
  to_records vs = elim (records_of vs) [ none ↦ none | some rs ↦ some (sort_records rs) ]

  unfoldable pub min_time : F → List (Record F I) → F
  min_time t [] = t
  min_time t (r ∷ rs) =
      min_time (if not (fl.is_zero r.time) && (fl.is_zero t || fl.less r.time t) then r.time else t)
        rs

  unfoldable pub shifted : F → List (Record F I) → List (Record F I)
  shifted t [] = []
  shifted t (r ∷ rs) = record r { time = fl.minus r.time t } ∷ shifted t rs

  -- records[0].BaseTime = minTime, and the offsets.
  abbrev pub with_base_time : F → List (Record F I) → List (Record F I)
  with_base_time t [] = []
  with_base_time t (r ∷ rs) =
      if fl.is_zero t then r ∷ rs else shifted t (record r { base_time = t } ∷ rs)

  abbrev pub based : List (Record F I) → List (Record F I)
  based [] = []
  based (r ∷ rs) = with_base_time (min_time r.time rs) (r ∷ rs)

  -- The records that Encode marshals; no variables are encoded as the empty payload.
  unfoldable pub encode_records : List (Variable F I) → Option (List (Record F I))
  encode_records vs = elim (to_records vs) [ none ↦ none | some rs ↦ some (based rs) ]
