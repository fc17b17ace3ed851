-- ===== src/Daemon/Lossless.antt =====
-- Every stamped value is in one place.
use arduino_cloud_connector.Common.{
  ℕ, ◌+◌, ◌≡◌, refl, String, Bool, true, false, Option, List, [], ◌∷◌, ◌++◌, leb, ◌==◌,
  if◌then◌else◌, arith, Bool-cases, inl, inr, ◌&&◌, ap, ◌∙◌,
}
use arduino_cloud_connector.Variables.{Registry}
use arduino_cloud_connector.Cloud as Cloud
use arduino_cloud_connector.Daemon.Outbound.{
  OutboundValue, Outbound, new_outbound, less, push, is_ripe, enqueue_variable, deliver, look, take,
  Step, enqueuing, sending, giving_up, looking, taking, Reach, here, next,
}

-- One place for each number given out, none for any other.
abbrev pub expected : ℕ → ℕ → ℕ
expected k seq = if leb 1 k && leb k seq then 1 else 0

module _ {V : Type 0} where
  -- How many values of a list have the sequence number.
  abbrev pub count : ℕ → List (OutboundValue V) → ℕ
  count k [] = 0
  count k (v ∷ vs) = (if v.seq == k then 1 else 0) + count k vs

  count-append :
      (k : ℕ) (vs ws : List (OutboundValue V)) → count k (vs ++ ws) ≡ count k vs + count k ws
  count-append k [] ws = omega arith
  count-append k (v ∷ vs) ws = omega (arith, count-append k vs ws)

  count-push :
      (k : ℕ) (v : OutboundValue V) (vs : List (OutboundValue V))
      → count k (push v vs) ≡ count k (v ∷ vs)
  unfolding push
  count-push k v [] = refl
  count-push k v (p ∷ ps) = elim (Bool-cases (less v p)) [
    | inl e ↦ rw e refl
    | inr e ↦ rw e (omega (arith, count-push k v ps))
  ]

  -- The places of a value.
  abbrev pub places : ℕ → Outbound V → ℕ
  places k o =
      count k o.submitting
      + count k o.given_up
      + count k o.queue
      + count k o.pending
      + count k o.delivered

  -- A value that is taken out of the middle of a list.
  count-middle :
      (k : ℕ) (before after all : List (OutboundValue V)) (v : OutboundValue V)
      → all ≡ before ++ v ∷ after
      → count k all ≡ count k (v ∷ []) + count k (before ++ after)
  count-middle k before after all v e =
      rw e (omega (arith, count-append k before (v ∷ after), count-append k before after))

  places-deliver_ripe :
      (k now : ℕ) (is_run : Bool) (cloud : Option Cloud.Snapshot) (vs : List (OutboundValue V))
      (o : Outbound V)
      → o.pending ≡ vs
      → places k (deliver now is_run cloud vs (record o { clock = now })) ≡ places k o
  places-deliver_ripe k now is_run cloud [] o e = refl
  places-deliver_ripe k now is_run cloud (v ∷ vs) o e = omega (arith, ap (count k) e)

  deliver_seq :
      (now : ℕ) (is_run : Bool) (cloud : Option Cloud.Snapshot) (vs : List (OutboundValue V))
      (o : Outbound V)
      → (deliver now is_run cloud vs (record o { clock = now })).seq ≡ o.seq
  deliver_seq now is_run cloud [] o = refl
  deliver_seq now is_run cloud (v ∷ vs) o = refl

  places-deliver :
      (k now : ℕ) (is_run : Bool) (cloud : Option Cloud.Snapshot) (o : Outbound V)
      → places k (look now is_run cloud o) ≡ places k o
  unfolding look
  places-deliver k now is_run cloud o = elim (Bool-cases (is_ripe now o.pending)) [
    | inl e ↦ rw e (places-deliver_ripe k now is_run cloud o.pending o refl)
    | inr e ↦ rw e refl
  ]

  places-enqueue :
      (k : ℕ) (steady : Bool) (now : ℕ) (name : String) (value : Option V) (client_id : String)
      (o : Outbound V)
      → places k o ≡ expected k o.seq
      → let p = (enqueue_variable steady now name value client_id o).1 in
        places k p ≡ expected k p.seq
  unfolding enqueue_variable
  places-enqueue k true now name value client_id o h = ground arith
  places-enqueue k false now name value client_id o h = h

  look_seq :
      (now : ℕ) (is_run : Bool) (cloud : Option Cloud.Snapshot) (o : Outbound V)
      → (look now is_run cloud o).seq ≡ o.seq
  unfolding look
  look_seq now is_run cloud o = elim (Bool-cases (is_ripe now o.pending)) [
    | inl e ↦ rw e (deliver_seq now is_run cloud o.pending o)
    | inr e ↦ rw e refl
  ]

  module _ {timely : Outbound V → OutboundValue V → Type 0} where
    Step-places :
        (k : ℕ) {o p : Outbound V}
        → Step timely o p
        → places k o ≡ expected k o.seq
        → places k p ≡ expected k p.seq
    unfolding take
    Step-places k (enqueuing o steady now name value client_id) h =
        places-enqueue k steady now name value client_id o h
    Step-places k (sending o before after v e l) h =
        omega
          (arith, h, count-middle k before after o.submitting v e, count-append k o.queue (v ∷ []))
    Step-places k (giving_up o before after v e) h =
        omega (arith, h, count-middle k before after o.submitting v e)
    Step-places k (looking o now is_run cloud l) h =
        places-deliver k now is_run cloud o ∙ rw (look_seq now is_run cloud o) h
    Step-places k (taking o v rest e r t) h =
        omega (arith, h, count-push k v o.pending, ap (count k) e)

    Reach-places :
        (k : ℕ) {o p : Outbound V}
        → Reach timely o p
        → places k o ≡ expected k o.seq
        → places k p ≡ expected k p.seq
    Reach-places k (here o) h = h
    Reach-places k (next o p q r s) h = Step-places k s (Reach-places k r h)

    -- In every interleaving, in time or not, a value with each sequence number given out stands in
    -- exactly one place, once: waiting to be sent, given up by its caller, in the channel, in the
    -- heap or delivered; so no accepted value is lost or delivered twice.
    pub values_in_one_place :
        (reg : Registry V) (o : Outbound V) (k : ℕ)
        → Reach timely (new_outbound reg) o
        → places k o ≡ expected k o.seq
    values_in_one_place reg o k r = Reach-places k r (ground arith)
