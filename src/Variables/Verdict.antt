-- ===== src/Variables/Verdict.antt =====
-- The whole of ApplyLastValues, seen by one subscriber: what it is sent, and that it waits no more.
use arduino_cloud_connector.Common.{
  ℕ, ◌≡◌, refl, String, Bool, true, false, List, [], ◌∷◌, ◌++◌, arith, str_eq, if◌then◌else◌, mem,
  sym, ◌∙◌, Bool-cases, inl, inr,
}
use arduino_cloud_connector.Common.Dict.{lookup}
use arduino_cloud_connector.Variables.{
  Variable, UpdateEvent, Subscription, Registry, listening, bare_event, last_value_missing,
  deliver_last_value, deliver_missing, enqueue, apply_last_values,
}
use arduino_cloud_connector.Variables.Wellformed.{IsWellformed, announce_all-IsWellformed}
use arduino_cloud_connector.Variables.LastValues.{
  resolve_missing_at, announce_all_listeners, announce_all_owned, announce_all_unlisted,
  announce_all_announced, deliver_all, frames_for, is_named, last_value_frame,
}
use mathlib.Core.List.{append_assoc, append-nil}

module _ {V : Type 0} where
  -- What one subscriber to `k` is sent.
  abbrev pub answer : String → ℕ → List (Variable V) → Bool → List (UpdateEvent V)
  answer k now vs pending =
      if is_named k vs
      then frames_for k now vs
      else if pending
      then bare_event k last_value_missing ∷ []
      else []

  deliver_all_queue :
      (fs : List (UpdateEvent V)) (s : Subscription V) → (deliver_all fs s).queue ≡ s.queue ++ fs
  unfolding enqueue
  deliver_all_queue [] s = sym (append-nil s.queue)
  deliver_all_queue (f ∷ fs) s =
      deliver_all_queue fs (deliver_last_value f s) ∙ append_assoc s.queue (f ∷ []) fs

  deliver_all_settled :
      (fs : List (UpdateEvent V)) (s : Subscription V)
      → s.pending ≡ false
      → (deliver_all fs s).pending ≡ false
  unfolding enqueue
  deliver_all_settled [] s h = h
  deliver_all_settled (f ∷ fs) s h = deliver_all_settled fs (deliver_last_value f s) refl

  deliver_all_pending :
      (k : String) (now : ℕ) (vs : List (Variable V)) (s : Subscription V)
      → is_named k vs ≡ true
      → (deliver_all (frames_for k now vs) s).pending ≡ false
  unfolding enqueue
  deliver_all_pending k now [] s h = cc
  deliver_all_pending k now (v ∷ vs) s h = elim (Bool-cases (str_eq v.name k)) [
    | inl e ↦ rw e (
        deliver_all_settled (frames_for k now vs) (deliver_last_value (last_value_frame now v) s)
          refl)
    | inr e ↦ rw e (deliver_all_pending k now vs s (ground arith))
  ]

  -- Both loops together: what a listed subscription becomes.
  abbrev pub verdict : String → ℕ → List (Variable V) → Subscription V → Subscription V
  verdict k now vs s =
      if is_named k vs
      then deliver_all (frames_for k now vs) s
      else deliver_missing (bare_event k last_value_missing) s

  frames_for-unnamed :
      (k : String) (now : ℕ) (vs : List (Variable V))
      → is_named k vs ≡ false
      → frames_for k now vs ≡ []
  frames_for-unnamed k now [] h = refl
  frames_for-unnamed k now (v ∷ vs) h = ground (arith, frames_for-unnamed k now vs)

  listed_verdict :
      (owner : ℕ → String) (now : ℕ) (vs : List (Variable V)) (r : Registry V) (j : ℕ)
      → mem j (listening (owner j) r) ≡ true
      → IsWellformed owner r
      → (apply_last_values now vs r).subs j ≡ verdict (owner j) now vs (r.subs j)
  unfolding apply_last_values lookup
  listed_verdict owner now vs r j listed w =
      let done = announce_all-IsWellformed owner now vs [] r w in
      rw
        (
          resolve_missing_at owner _ _ _ _ j done.listed,
          announce_all_owned owner now vs [] r j listed w,
          announce_all_announced now vs [] r (owner j),
          announce_all_listeners now vs [] r,
        )
        (elim (Bool-cases (is_named (owner j) vs)) [
          | inl e ↦ rw (e, listed)
          | inr e ↦ rw (frames_for-unnamed (owner j) now vs e, e, listed)
        ])

  pub apply_last_values_listeners :
      (now : ℕ) (vs : List (Variable V)) (r : Registry V)
      → (apply_last_values now vs r).listeners ≡ r.listeners
  unfolding apply_last_values
  apply_last_values_listeners now vs r = announce_all_listeners now vs [] r

  unlisted_verdict :
      (owner : ℕ → String) (now : ℕ) (vs : List (Variable V)) (r : Registry V) (j : ℕ)
      → mem j (listening (owner j) r) ≡ false
      → IsWellformed owner r
      → (apply_last_values now vs r).subs j ≡ r.subs j
  unfolding apply_last_values
  unlisted_verdict owner now vs r j out w =
      let done = announce_all-IsWellformed owner now vs [] r w in
      rw
        (
          resolve_missing_at owner _ _ _ _ j done.listed,
          announce_all_unlisted owner now vs [] r j out w,
          announce_all_listeners now vs [] r,
        )
        (rw out)

  verdict_lem :
      (k : String) (now : ℕ) (vs : List (Variable V)) (s : Subscription V)
      → ((verdict k now vs s).queue ≡ s.queue ++ answer k now vs s.pending)
        × ((verdict k now vs s).pending ≡ false)
  unfolding enqueue
  verdict_lem k now vs s = elim (Bool-cases (is_named k vs)) [
    | inl e ↦ rw e (deliver_all_queue (frames_for k now vs) s, deliver_all_pending k now vs s e)
    | inr e ↦ rw e (elim (Bool-cases s.pending) [
      | inl p ↦ rw p (refl, refl)
      | inr p ↦ rw p (sym (append-nil s.queue), refl)
    ])
  ]

  -- For every well-formed registry and every payload, ApplyLastValues appends to the queue of each
  -- subscription listed under a name exactly the announcements of that name, in the payload's
  -- order, or one lastvalue_missing frame where the payload does not name it and the subscription
  -- was pending, or nothing; and leaves the subscription not pending.
  pub apply_last_values_verdict :
      (owner : ℕ → String) (now : ℕ) (vs : List (Variable V)) (r : Registry V) (k : String) (j : ℕ)
      → IsWellformed owner r
      → mem j (listening k r) ≡ true
      → (((apply_last_values now vs r).subs j).queue
          ≡ (r.subs j).queue ++ answer k now vs (r.subs j).pending)
        × (((apply_last_values now vs r).subs j).pending ≡ false)
  apply_last_values_verdict owner now vs r k j w listed =
      let is_k : owner j ≡ k = w.listed.owned k j listed in
      let at_owner : mem j (listening (owner j) r) ≡ true = rw is_k listed in
      rw (listed_verdict owner now vs r j at_owner w, is_k) (verdict_lem k now vs (r.subs j))

  pub apply_last_values_stranger :
      (owner : ℕ → String) (now : ℕ) (vs : List (Variable V)) (r : Registry V) (j : ℕ)
      → IsWellformed owner r
      → ((k : String) → mem j (listening k r) ≡ false)
      → (apply_last_values now vs r).subs j ≡ r.subs j
  apply_last_values_stranger owner now vs r j w out =
      unlisted_verdict owner now vs r j (out (owner j)) w
