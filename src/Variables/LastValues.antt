-- ===== src/Variables/LastValues.antt =====
-- ApplyLastValues: the verdict that each subscription gets.
use arduino_cloud_connector.Common.{
  ℕ, ◌≡◌, refl, String, Bool, true, false, not, ◌&&◌, ◌||◌, List, [], ◌∷◌, arith, str_eq, eq_iff,
  if◌then◌else◌, mem, for_each, for_each_at, select, map, ◌∙◌, Distinct, eq_refl, Bool-cases, inl,
  inr,
}
use arduino_cloud_connector.Common.Dict.{Dict, lookup, insert, lookup-insert, lookup_missing}
use arduino_cloud_connector.Variables.{
  Variable, UpdateEvent, Subscription, Registry, listening, default_time, last_value_event,
  bare_event, last_value_missing, deliver_last_value, deliver_missing, announce, announce_all,
  is_announced, resolve_missing,
}
use arduino_cloud_connector.Variables.Storage.{store_value-rest}
use arduino_cloud_connector.Variables.Listeners.{AreListeners, ids_at}
use arduino_cloud_connector.Variables.Wellformed.{IsWellformed, announce-IsWellformed}

tail-AreListeners :
    (owner : ℕ → String) (name : String) (ids : List ℕ) (m : Dict (List ℕ)) (next : ℕ)
    → AreListeners owner ((name, ids) ∷ m) next
    → AreListeners owner m next
unfolding lookup
tail-AreListeners owner name ids m next w = record {
  keys = w.keys.1;
  distinct = λ k. elim (Bool-cases (str_eq name k)) [
    | inl e ↦ rw (lookup_missing k m (rw (← (eq_iff name k).0 e) w.keys.0)) tt
    | inr e ↦ rw e at (w.distinct k)
  ];
  owned = λ k i e. ground (arith, eq_iff name k, lookup_missing name m w.keys.0, w.owned k i);
  fresh = λ k i e. ground (arith, eq_iff name k, lookup_missing name m w.keys.0, w.fresh k i);
}

module _ {V : Type 0} where
  -- The verdict on the subscription `j`: the rule of the second loop for the name that it follows.
  pub resolve_missing_at :
      (owner : ℕ → String) (announced : Dict Bool) (m : Dict (List ℕ)) (next : ℕ)
      (h : ℕ → Subscription V) (j : ℕ)
      → AreListeners owner m next
      → resolve_missing announced m h j ≡ (
          if mem j (ids_at (owner j) m) && not (is_announced announced (owner j))
          then deliver_missing (bare_event (owner j) last_value_missing) (h j)
          else h j)
  unfolding resolve_missing lookup
  resolve_missing_at owner announced [] next h j w = refl
  resolve_missing_at owner announced ((name, ids) ∷ m) next h j w =
      let told : Subscription V → Subscription V =
        deliver_missing (bare_event name last_value_missing) in
      let once : Distinct ids = rw (eq_refl name) at (w.distinct name) in
      ground (
        arith,
        for_each_at told ids h j once,
        eq_iff name (owner j),
        eq_refl name,
        w.owned name j,
        lookup_missing name m w.keys.0,
        resolve_missing_at owner announced m next
            (if is_announced announced name then h else for_each told ids h) j
            (tail-AreListeners owner name ids m next w),
      )

  abbrev pub last_value_frame : ℕ → Variable V → UpdateEvent V
  last_value_frame now v = last_value_event v.name v.value (default_time v.timestamp now)

  abbrev pub is_named : String → List (Variable V) → Bool
  is_named k [] = false
  is_named k (v ∷ vs) = str_eq v.name k || is_named k vs

  -- The announcements of `k` in a payload, in its order.
  abbrev pub frames_for : String → ℕ → List (Variable V) → List (UpdateEvent V)
  frames_for k now vs = map (last_value_frame now) (select (λ v. str_eq v.name k) vs)

  abbrev pub deliver_all : List (UpdateEvent V) → Subscription V → Subscription V
  deliver_all [] s = s
  deliver_all (f ∷ fs) s = deliver_all fs (deliver_last_value f s)

  announce_subs :
      (owner : ℕ → String) (now : ℕ) (v : Variable V) (r : Registry V) (j : ℕ)
      → IsWellformed owner r
      → (announce now v r).subs j ≡ (
          if mem j (listening v.name r)
          then deliver_last_value (last_value_frame now v) (r.subs j)
          else r.subs j)
  unfolding announce
  announce_subs owner now v r j w =
      let rest = store_value-rest v.name v.value (default_time v.timestamp now) r in
      rw (rest.0, rest.1, for_each_at _ (listening v.name r) r.subs j (w.listed.distinct v.name))
        refl

  announce_listeners :
      (now : ℕ) (v : Variable V) (r : Registry V) → (announce now v r).listeners ≡ r.listeners
  unfolding announce
  announce_listeners now v r = (store_value-rest v.name v.value (default_time v.timestamp now) r).0

  announce_owned :
      (owner : ℕ → String) (now : ℕ) (v : Variable V) (r : Registry V) (j : ℕ)
      → mem j (listening (owner j) r) ≡ true
      → IsWellformed owner r
      → (announce now v r).subs j ≡ (
          if str_eq v.name (owner j)
          then deliver_last_value (last_value_frame now v) (r.subs j)
          else r.subs j)
  announce_owned owner now v r j listed w =
      rw (announce_subs owner now v r j w)
        (ground (arith, eq_iff v.name (owner j), w.listed.owned v.name j))

  pub announce_all_listeners :
      (now : ℕ) (vs : List (Variable V)) (announced : Dict Bool) (r : Registry V)
      → (announce_all now vs announced r).1.listeners ≡ r.listeners
  unfolding announce_all
  announce_all_listeners now [] announced r = refl
  announce_all_listeners now (v ∷ vs) announced r =
      announce_all_listeners now vs (insert v.name true announced) (announce now v r)
      ∙ announce_listeners now v r

  pub announce_all_owned :
      (owner : ℕ → String) (now : ℕ) (vs : List (Variable V)) (announced : Dict Bool)
      (r : Registry V) (j : ℕ)
      → mem j (listening (owner j) r) ≡ true
      → IsWellformed owner r
      → (announce_all now vs announced r).1.subs j
        ≡ deliver_all (frames_for (owner j) now vs) (r.subs j)
  unfolding announce_all
  announce_all_owned owner now [] announced r j listed w = refl
  announce_all_owned owner now (v ∷ vs) announced r j listed w =
      let ih =
        announce_all_owned owner now vs (insert v.name true announced) (announce now v r) j
          (rw (announce_listeners now v r) listed) (announce-IsWellformed owner now v r w) in
      rw (ih, announce_owned owner now v r j listed w)
        (elim (Bool-cases (str_eq v.name (owner j))) [ inl e ↦ rw e | inr e ↦ rw e ])

  pub announce_all_unlisted :
      (owner : ℕ → String) (now : ℕ) (vs : List (Variable V)) (announced : Dict Bool)
      (r : Registry V) (j : ℕ)
      → mem j (listening (owner j) r) ≡ false
      → IsWellformed owner r
      → (announce_all now vs announced r).1.subs j ≡ r.subs j
  unfolding announce_all
  announce_all_unlisted owner now [] announced r j out w = refl
  announce_all_unlisted owner now (v ∷ vs) announced r j out w =
      let ih =
        announce_all_unlisted owner now vs (insert v.name true announced) (announce now v r) j
          (rw (announce_listeners now v r) out) (announce-IsWellformed owner now v r w) in
      rw (ih, announce_subs owner now v r j w) (ground (arith, w.listed.owned v.name j))

  pub announce_all_announced :
      (now : ℕ) (vs : List (Variable V)) (announced : Dict Bool) (r : Registry V) (k : String)
      → is_announced (announce_all now vs announced r).0 k
        ≡ (is_announced announced k || is_named k vs)
  unfolding announce_all
  announce_all_announced now [] announced r k = ground arith
  announce_all_announced now (v ∷ vs) announced r k = ground (
    arith,
    lookup-insert v.name k true announced,
    announce_all_announced now vs (insert v.name true announced) (announce now v r) k,
  )
