-- ===== src/Daemon/Order.antt =====
-- The worker delivers in the order of the time stamps, and loses nothing.
use arduino_cloud_connector.Common.{
  ◌⊎◌, ℕ, ◌+◌, ◌≤◌, ◌<◌, ◌≡◌, String, Bool, true, false, Option, List, [], ◌∷◌, All, arith,
  Bool-cases, inl, inr,
}
use arduino_cloud_connector.Variables.{Registry}
use arduino_cloud_connector.Cloud as Cloud
use arduino_cloud_connector.Daemon.Outbound.{
  OutboundValue, Outbound, new_outbound, less, push, is_ripe, enqueue_variable, deliver, look, take,
  Step, enqueuing, sending, giving_up, looking, taking, Reach, here, next, outbound_reorder_window,
}

module _ {V : Type 0} where
  -- The second value is not to be sent before the first.
  abbrev pub Before : OutboundValue V → OutboundValue V → Type 0
  Before a b = less b a ≡ false

  abbrev pub Ascending : List (OutboundValue V) → Type 0
  Ascending [] = Unit
  Ascending (v ∷ vs) = All (Before v) vs × Ascending vs

  -- In order, newest first.
  abbrev pub Descending : List (OutboundValue V) → Type 0
  Descending [] = Unit
  Descending (v ∷ vs) = All (λ (d : OutboundValue V). Before d v) vs × Descending vs

  less-Before : (a b : OutboundValue V) → less a b ≡ true → Before a b
  unfolding less
  less-Before a b h = ground arith

  Before-trans : (a b c : OutboundValue V) → Before a b → Before b c → Before a c
  unfolding less
  Before-trans a b c h k = ground arith

  All-Before :
      (a b : OutboundValue V) (vs : List (OutboundValue V))
      → Before a b
      → All (Before b) vs
      → All (Before a) vs
  All-Before a b [] h k = tt
  All-Before a b (v ∷ vs) h k = (Before-trans a b v h k.0, All-Before a b vs h k.1)

  All-push :
      (a v : OutboundValue V) (vs : List (OutboundValue V))
      → Before a v
      → All (Before a) vs
      → All (Before a) (push v vs)
  unfolding push
  All-push a v [] h k = (h, tt)
  All-push a v (p ∷ ps) h k = elim (Bool-cases (less v p)) [
    | inl e ↦ rw e (h, k)
    | inr e ↦ rw e (k.0, All-push a v ps h k.1)
  ]

  push-Ascending :
      (v : OutboundValue V) (vs : List (OutboundValue V)) → Ascending vs → Ascending (push v vs)
  unfolding push
  push-Ascending v [] s = (tt, tt)
  push-Ascending v (p ∷ ps) s = elim (Bool-cases (less v p)) [
    | inl e ↦ let b = less-Before v p e in rw e ((b, All-Before v p ps b s.0), s)
    | inr e ↦ rw e (All-push p v ps e s.0, push-Ascending v ps s.1)
  ]

  -- A value reaches the heap before the worker has seen the end of its window.
  abbrev pub InTime : Outbound V → OutboundValue V → Type 0
  InTime o v = o.clock < v.ts + outbound_reorder_window

  -- What was delivered comes before what is pending, and its window is over.
  abbrev pub Settled : ℕ → List (OutboundValue V) → List (OutboundValue V) → Type 0
  Settled clock pending [] = Unit
  Settled clock pending (d ∷ ds) =
      All (Before d) pending × (d.ts + outbound_reorder_window ≤ clock) × Settled clock pending ds

  pub record IsOrdered (o : Outbound V) : Type 0 where
    pub delivered : Descending o.delivered
    pub pending : Ascending o.pending
    pub settled : Settled o.clock o.pending o.delivered

  late-Before :
      (d v : OutboundValue V) (clock : ℕ)
      → d.ts + outbound_reorder_window ≤ clock
      → clock < v.ts + outbound_reorder_window
      → Before d v
  unfolding less
  late-Before d v clock h k = ground arith

  push-Settled :
      (clock : ℕ) (v : OutboundValue V) (vs ds : List (OutboundValue V))
      → clock < v.ts + outbound_reorder_window
      → Settled clock vs ds
      → Settled clock (push v vs) ds
  push-Settled clock v vs [] k s = tt
  push-Settled clock v vs (d ∷ ds) k s =
      (All-push d v vs (late-Before d v clock s.1 k) s.0, s.1, push-Settled clock v vs ds k s.2)

  later-Settled :
      (clock now : ℕ) (vs ds : List (OutboundValue V))
      → clock ≤ now
      → Settled clock vs ds
      → Settled now vs ds
  later-Settled clock now vs [] h s = tt
  later-Settled clock now vs (d ∷ ds) h s =
      (s.0, omega (arith, s.1, h), later-Settled clock now vs ds h s.2)

  rest-Settled :
      (clock : ℕ) (v : OutboundValue V) (vs ds : List (OutboundValue V))
      → Settled clock (v ∷ vs) ds
      → Settled clock vs ds × All (λ (d : OutboundValue V). Before d v) ds
  rest-Settled clock v vs [] s = (tt, tt)
  rest-Settled clock v vs (d ∷ ds) s =
      let rest = rest-Settled clock v vs ds s.2 in ((s.0.1, s.1, rest.0), (s.0.0, rest.1))

  deliver-IsOrdered :
      (now : ℕ) (is_run : Bool) (cloud : Option Cloud.Snapshot) (vs : List (OutboundValue V))
      (o : Outbound V)
      → is_ripe now vs ≡ true
      → Ascending vs
      → Settled now vs o.delivered
      → Descending o.delivered
      → IsOrdered (deliver now is_run cloud vs (record o { clock = now }))
  deliver-IsOrdered now is_run cloud [] o r p s d = ground arith
  deliver-IsOrdered now is_run cloud (v ∷ vs) o r p s d =
      let rest = rest-Settled now v vs o.delivered s in
      record { delivered = (rest.1, d); pending = p.1; settled = (p.0, ground arith, rest.0) }

  look-IsOrdered :
      (now : ℕ) (is_run : Bool) (cloud : Option Cloud.Snapshot) (o : Outbound V)
      → o.clock ≤ now
      → IsOrdered o
      → IsOrdered (look now is_run cloud o)
  unfolding look
  look-IsOrdered now is_run cloud o h w =
      let s = later-Settled o.clock now o.pending o.delivered h w.settled in
      elim (Bool-cases (is_ripe now o.pending)) [
        | inl e ↦ rw e (deliver-IsOrdered now is_run cloud o.pending o e w.pending s w.delivered)
        | inr e ↦ rw e (record { delivered = w.delivered; pending = w.pending; settled = s })
      ]

  enqueue_variable-IsOrdered :
      (steady : Bool) (now : ℕ) (name : String) (value : Option V) (client_id : String)
      (o : Outbound V)
      → IsOrdered o
      → IsOrdered (enqueue_variable steady now name value client_id o).1
  unfolding enqueue_variable
  enqueue_variable-IsOrdered true now name value client_id o w = record {
    delivered = w.delivered;
    pending = w.pending;
    settled = w.settled;
  }
  enqueue_variable-IsOrdered false now name value client_id o w = w

  Step-IsOrdered : {o p : Outbound V} → Step InTime o p → IsOrdered o → IsOrdered p
  unfolding take
  Step-IsOrdered (enqueuing o steady now name value client_id) w =
      enqueue_variable-IsOrdered steady now name value client_id o w
  Step-IsOrdered (sending o before after v e l) w = record {
    delivered = w.delivered;
    pending = w.pending;
    settled = w.settled;
  }
  Step-IsOrdered (giving_up o before after v e) w = record {
    delivered = w.delivered;
    pending = w.pending;
    settled = w.settled;
  }
  Step-IsOrdered (looking o now is_run cloud h) w = look-IsOrdered now is_run cloud o h w
  Step-IsOrdered (taking o v rest e r t) w = record {
    delivered = w.delivered;
    pending = push-Ascending v o.pending w.pending;
    settled = push-Settled o.clock v o.pending o.delivered t w.settled;
  }

  Reach-IsOrdered : {o p : Outbound V} → Reach InTime o p → IsOrdered o → IsOrdered p
  Reach-IsOrdered (here o) w = w
  Reach-IsOrdered (next o p q r s) w = Step-IsOrdered s (Reach-IsOrdered r w)

  -- The order that is promised: by time stamp, then by sequence number.
  abbrev pub Earlier : OutboundValue V → OutboundValue V → Type 0
  Earlier a b = (a.ts < b.ts) ⊎ ((a.ts ≡ b.ts) × (a.seq ≤ b.seq))

  -- Each value is earlier than those delivered after it; the list is newest first.
  abbrev pub InOrder : List (OutboundValue V) → Type 0
  InOrder [] = Unit
  InOrder (v ∷ vs) = All (λ (d : OutboundValue V). Earlier d v) vs × InOrder vs

  Before-Earlier : (a b : OutboundValue V) → Before a b → Earlier a b
  unfolding less
  Before-Earlier a b h = ground arith

  All-Earlier :
      (v : OutboundValue V) (vs : List (OutboundValue V))
      → All (λ (d : OutboundValue V). Before d v) vs
      → All (λ (d : OutboundValue V). Earlier d v) vs
  All-Earlier v [] h = tt
  All-Earlier v (d ∷ ds) h = (Before-Earlier d v h.0, All-Earlier v ds h.1)

  Descending-InOrder : (vs : List (OutboundValue V)) → Descending vs → InOrder vs
  Descending-InOrder [] d = tt
  Descending-InOrder (v ∷ vs) d = (All-Earlier v vs d.0, Descending-InOrder vs d.1)

  -- In every interleaving of callers of EnqueueVariable and the worker in which each value reaches
  -- the heap before the worker has seen the end of its window, the values are stored and published
  -- in the order of their time stamps, and of their sequence numbers where those are equal.
  pub delivered-InOrder :
      (reg : Registry V) (o : Outbound V) → Reach InTime (new_outbound reg) o → InOrder o.delivered
  delivered-InOrder reg o r =
      Descending-InOrder o.delivered
        (Reach-IsOrdered r (record { delivered = tt; pending = tt; settled = tt })).delivered
