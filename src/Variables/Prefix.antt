-- ===== src/Variables/Prefix.antt =====
-- WithPrefix: exactly the set variables with the prefix, in the order of their names.
use arduino_cloud_connector.Common.{
  ℕ, ◌≡◌, refl, String, true, false, Option, none, some, List, [], ◌∷◌, arith, ◌∙◌, eq_refl, str_eq,
  eq_iff, ◌==◌, if◌then◌else◌, All, Bool-cases, inl, inr,
}
use arduino_cloud_connector.Common.Dict.{Dict, lookup, lookup_missing, DistinctKeys}
use arduino_cloud_connector.Variables.{
  Variable, Registry, get, with_prefix, matching, sort_by_name, insert_sorted,
}
use arduino_cloud_connector.Variables.Text.{has_prefix, text_leb}
use arduino_cloud_connector.Variables.Wellformed.{IsWellformed}

text_leb_total : (s t : String) → text_leb s t ≡ false → text_leb t s ≡ true
unfolding text_leb
text_leb_total String.[] t h = cc
text_leb_total (String.◌∷◌ c p) String.[] h = refl
text_leb_total (String.◌∷◌ c p) (String.◌∷◌ d s) h = ground (arith, text_leb_total p s)

text_leb_trans : (s t u : String) → text_leb s t ≡ true → text_leb t u ≡ true → text_leb s u ≡ true
unfolding text_leb
text_leb_trans String.[] t u h k = refl
text_leb_trans (String.◌∷◌ c p) String.[] u h k = cc
text_leb_trans (String.◌∷◌ c p) (String.◌∷◌ d s) String.[] h k = cc
text_leb_trans (String.◌∷◌ c p) (String.◌∷◌ d s) (String.◌∷◌ e t) h k =
    ground (arith, text_leb_trans p s t)

module _ {V : Type 0} where
  abbrev pub IsAbove : Variable V → Variable V → Type 0
  IsAbove v w = text_leb v.name w.name ≡ true

  abbrev pub IsSorted : List (Variable V) → Type 0
  IsSorted [] = Unit
  IsSorted (v ∷ vs) = All (IsAbove v) vs × IsSorted vs

  All-trans :
      (v w : Variable V) (ws : List (Variable V))
      → IsAbove v w
      → All (IsAbove w) ws
      → All (IsAbove v) ws
  All-trans v w [] h a = tt
  All-trans v w (x ∷ xs) h a = (text_leb_trans v.name w.name x.name h a.0, All-trans v w xs h a.1)

  All-insert_sorted :
      (u v : Variable V) (ws : List (Variable V))
      → IsAbove u v
      → All (IsAbove u) ws
      → All (IsAbove u) (insert_sorted v ws)
  unfolding insert_sorted
  All-insert_sorted u v [] h a = (h, tt)
  All-insert_sorted u v (w ∷ ws) h a = elim (Bool-cases (text_leb v.name w.name)) [
    | inl e ↦ rw e (h, a)
    | inr e ↦ rw e (a.0, All-insert_sorted u v ws h a.1)
  ]

  insert_sorted-IsSorted :
      (v : Variable V) (ws : List (Variable V)) → IsSorted ws → IsSorted (insert_sorted v ws)
  unfolding insert_sorted
  insert_sorted-IsSorted v [] s = (tt, tt)
  insert_sorted-IsSorted v (w ∷ ws) s = elim (Bool-cases (text_leb v.name w.name)) [
    | inl e ↦ rw e ((e, All-trans v w ws e s.0), s)
    | inr e ↦ rw e (
      All-insert_sorted w v ws (text_leb_total v.name w.name e) s.0,
      insert_sorted-IsSorted v ws s.1,
    )
  ]

  sort_by_name-IsSorted : (vs : List (Variable V)) → IsSorted (sort_by_name vs)
  unfolding sort_by_name
  sort_by_name-IsSorted [] = tt
  sort_by_name-IsSorted (v ∷ vs) =
      insert_sorted-IsSorted v (sort_by_name vs) (sort_by_name-IsSorted vs)

text_leb_refl : (s : String) → text_leb s s ≡ true
unfolding text_leb
text_leb_refl String.[] = refl
text_leb_refl (String.◌∷◌ c p) = ground (arith, text_leb_refl p)

module _ {V : Type 0} where
  -- The first variable of the list with the name.
  abbrev pub find : String → List (Variable V) → Option (Variable V)
  find k [] = none
  find k (v ∷ vs) = if str_eq v.name k then some v else find k vs

  -- A variable that was set at least once.
  abbrev pub if_set : Option (Variable V) → Option (Variable V)
  if_set none = none
  if_set (some v) = if v.timestamp == 0 then none else some v

  find-insert_sorted :
      (k : String) (v : Variable V) (ws : List (Variable V))
      → find k (insert_sorted v ws) ≡ (if str_eq v.name k then some v else find k ws)
  unfolding insert_sorted
  find-insert_sorted k v [] = refl
  find-insert_sorted k v (w ∷ ws) =
      ground (arith, eq_iff v.name k, eq_iff w.name k, text_leb_refl k, find-insert_sorted k v ws)

  find-sort_by_name : (k : String) (vs : List (Variable V)) → find k (sort_by_name vs) ≡ find k vs
  unfolding sort_by_name
  find-sort_by_name k [] = refl
  find-sort_by_name k (v ∷ vs) =
      rw (find-insert_sorted k v (sort_by_name vs), find-sort_by_name k vs)

  find-matching :
      (prefix k : String) (m : Dict (Variable V))
      → DistinctKeys m
      → ((j : String) (v : Variable V) → lookup j m ≡ some v → v.name ≡ j)
      → find k (matching prefix m) ≡ (if has_prefix prefix k then if_set (lookup k m) else none)
  unfolding matching lookup
  find-matching prefix k [] d named = ground arith
  find-matching prefix k ((name, v) ∷ m) d named = ground (
    arith,
    eq_iff name k,
    eq_iff v.name k,
    lookup_missing name m d.0,
    named name v (rw (eq_refl name)),
    find-matching prefix k m d.1
        (λ j w e. named j w (ground (arith, eq_iff name j, lookup_missing name m d.0))),
  )

  -- On a well-formed registry WithPrefix returns its variables in the order of their names, and a
  -- variable is among them exactly if its name has the prefix and it was ever written.
  pub with_prefix_lem :
      (owner : ℕ → String) (prefix : String) (r : Registry V)
      → IsWellformed owner r
      → IsSorted (with_prefix prefix r)
        × ((k : String)
            → find k (with_prefix prefix r)
              ≡ (if has_prefix prefix k then if_set (get k r) else none))
  unfolding with_prefix get
  with_prefix_lem owner prefix r w = (
    sort_by_name-IsSorted (matching prefix r.vars),
    λ k.
        find-sort_by_name k (matching prefix r.vars)
        ∙ find-matching prefix k r.vars w.var_keys w.named,
  )
