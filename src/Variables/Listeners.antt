-- ===== src/Variables/Listeners.antt =====
-- The listener lists of the registry: each subscription stands in one list, once.
use arduino_cloud_connector.Common.{
  ℕ, ◌+◌, ◌<◌, ◌≡◌, refl, String, true, false, some, List, [], ◌∷◌, ◌++◌, arith, str_eq, eq_iff,
  ◌==◌, if◌then◌else◌, mem, mem-append, Distinct, Distinct-append_one, update, inl, inr, Bool-cases,
}
use arduino_cloud_connector.Common.Dict.{
  Dict, lookup, insert, lookup-insert, or_zero, DistinctKeys, insert-DistinctKeys,
}
use arduino_cloud_connector.Variables.{remove_id}

abbrev pub ids_at : String → Dict (List ℕ) → List ℕ
ids_at k m = or_zero [] (lookup k m)

-- `owner` gives the name under which each subscription was opened.
pub record AreListeners (owner : ℕ → String) (listeners : Dict (List ℕ)) (next : ℕ) : Type 0 where
  pub keys : DistinctKeys listeners
  pub distinct : (k : String) → Distinct (ids_at k listeners)
  pub owned : (k : String) (i : ℕ) → mem i (ids_at k listeners) ≡ true → owner i ≡ k
  pub fresh : (k : String) (i : ℕ) → mem i (ids_at k listeners) ≡ true → i < next

pub ids_at-insert :
    (k name : String) (ids : List ℕ) (m : Dict (List ℕ))
    → ids_at k (insert name ids m) ≡ (if str_eq name k then ids else ids_at k m)
ids_at-insert k name ids m = ground (arith, lookup-insert name k ids m)

not-mem_next :
    (owner : ℕ → String) (m : Dict (List ℕ)) (next : ℕ) (k : String)
    → AreListeners owner m next
    → mem next (ids_at k m) ≡ false
not-mem_next owner m next k w = elim (Bool-cases (mem next (ids_at k m))) [
  | inl e ↦ absurd (omega (arith, w.fresh k next e))
  | inr e ↦ e
]

pub add-AreListeners :
    (owner : ℕ → String) (m : Dict (List ℕ)) (next : ℕ) (name : String)
    → AreListeners owner m next
    → AreListeners (update owner next name) (insert name (ids_at name m ++ next ∷ []) m) (next + 1)
add-AreListeners owner m next name w = record {
  keys = insert-DistinctKeys name _ m w.keys;
  distinct = λ k. rw (ids_at-insert k name) (elim (Bool-cases (str_eq name k)) [
    | inl e ↦ rw e (Distinct-append_one next _ (not-mem_next owner m next name w) (w.distinct name))
    | inr e ↦ rw e (w.distinct k)
  ]);
  owned = λ k i e. ground (
    arith,
    ids_at-insert k name (ids_at name m ++ next ∷ []) m,
    eq_iff name k,
    w.owned k i,
    w.fresh k i,
    mem-append i (ids_at k m) (next ∷ []),
    not-mem_next owner m next k w,
  );
  fresh = λ k i e. ground (
    arith,
    ids_at-insert k name (ids_at name m ++ next ∷ []) m,
    eq_iff name k,
    w.fresh k i,
    mem-append i (ids_at k m) (next ∷ []),
  );
}

mem-remove_id : (i j : ℕ) (ids : List ℕ) → mem j (remove_id i ids) ≡ true → mem j ids ≡ true
unfolding remove_id
mem-remove_id i j [] h = h
mem-remove_id i j (x ∷ xs) h = ground (arith, mem-remove_id i j xs)

remove_id-Distinct : (i : ℕ) (ids : List ℕ) → Distinct ids → Distinct (remove_id i ids)
unfolding remove_id
remove_id-Distinct i [] d = tt
remove_id-Distinct i (x ∷ xs) d = elim (Bool-cases (x == i)) [
  | inl e ↦ rw e d.1
  | inr e ↦ rw e (ground (arith, mem-remove_id i x xs), remove_id-Distinct i xs d.1)
]

-- The first match is the only one: after the removal the subscription is listed no more.
pub not-mem-remove_id : (i : ℕ) (ids : List ℕ) → Distinct ids → mem i (remove_id i ids) ≡ false
unfolding remove_id
not-mem-remove_id i [] d = refl
not-mem-remove_id i (x ∷ xs) d = ground (arith, not-mem-remove_id i xs d.1)

pub mem-remove_id_ne :
    (i j : ℕ) (ids : List ℕ) → (i == j) ≡ false → mem j (remove_id i ids) ≡ mem j ids
unfolding remove_id
mem-remove_id_ne i j [] h = refl
mem-remove_id_ne i j (x ∷ xs) h = ground (arith, mem-remove_id_ne i j xs h)

pub remove-AreListeners :
    (owner : ℕ → String) (m : Dict (List ℕ)) (next : ℕ) (name : String) (id : ℕ) (ids : List ℕ)
    → lookup name m ≡ some ids
    → AreListeners owner m next
    → AreListeners owner (insert name (remove_id id ids) m) next
remove-AreListeners owner m next name id ids at w = record {
  keys = insert-DistinctKeys name _ m w.keys;
  distinct = λ k. rw (ids_at-insert k name) (elim (Bool-cases (str_eq name k)) [
    | inl e ↦ rw e (remove_id-Distinct id ids (rw at at (w.distinct name)))
    | inr e ↦ rw e (w.distinct k)
  ]);
  owned = λ k i e. ground (
    arith,
    ids_at-insert k name (remove_id id ids) m,
    eq_iff name k,
    w.owned k i,
    mem-remove_id id i ids,
  );
  fresh = λ k i e. ground (
    arith,
    ids_at-insert k name (remove_id id ids) m,
    eq_iff name k,
    w.fresh k i,
    mem-remove_id id i ids,
  );
}
