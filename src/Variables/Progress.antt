-- ===== src/Variables/Progress.antt =====
-- A subscription does not get stuck: while anything is undelivered the next event can reach the reader.
use mathlib.Core.List.{append-nil, append_assoc}
use arduino_cloud_connector.Common.{
  ◌≡◌, refl, sym, ap, ◌∙◌, String, true, false, List, [], ◌∷◌, ◌++◌, arith, Bool-cases, inl, inr,
}
use arduino_cloud_connector.Variables.{
  UpdateEvent, Pump, looking, waiting, sending, exited, signal, pump_look, pump_woken,
}
use arduino_cloud_connector.Variables.Delivery.{
  Channel, Reach, here, next, look, woken, handed, announce, IsFifo, is_exited, in_hand, opened,
  opened-IsFifo, Reach-IsFifo,
}

module _ {V : Type 0} where
  Reach-trans : {c d e : Channel V} → Reach c d → Reach d e → Reach c e
  Reach-trans r here = r
  Reach-trans r (next s st) = next (Reach-trans r s) st

  -- Some steps in which nothing new is sent hand the reader one event more.
  abbrev Hands : Channel V → Type 0
  Hands c =
      (d : Channel V) × (evt : UpdateEvent V) × Reach c d
      × (d.sent ≡ c.sent)
      × (d.received ≡ c.received ++ evt ∷ [])

  -- And that event is the first of those that were sent and not received.
  abbrev pub Delivers : Channel V → Type 0
  Delivers c =
      (d : Channel V) × (evt : UpdateEvent V) × (rest : List (UpdateEvent V)) × Reach c d
      × (d.sent ≡ c.sent)
      × (d.received ≡ c.received ++ evt ∷ [])
      × (c.received ++ evt ∷ rest ≡ c.sent)

  Delivers-next : (c : Channel V) → IsFifo c → Hands c → Delivers c
  Delivers-next c f (d, evt, r, same, got) =
      let g = Reach-IsFifo f r in
      (
        d,
        evt,
        g.held ++ d.sub.queue,
        r,
        same,
        got,
        sym (append_assoc c.received (evt ∷ []) (g.held ++ d.sub.queue))
            ∙ (ap (λ (xs : List (UpdateEvent V)). xs ++ (g.held ++ d.sub.queue)) (sym got)
                ∙ (g.ordered ∙ same)),
      )

  sending-Hands : (c : Channel V) (evt : UpdateEvent V) → c.sub.pump ≡ sending evt → Hands c
  sending-Hands c evt at = (_, evt, next here (handed c evt at), refl, refl)

  looking-Hands :
      (c : Channel V) (evt : UpdateEvent V) (rest : List (UpdateEvent V))
      → c.sub.pump ≡ looking
      → c.sub.queue ≡ evt ∷ rest
      → Hands c
  unfolding pump_look
  looking-Hands c evt rest at e =
      let c' : Channel V = record c { sub = pump_look c.sub } in
      let (d, x, r, same, got) = sending-Hands c' evt (ground arith) in
      (d, x, Reach-trans (next here (look c at)) r, same, got)

  awake-Hands :
      (c : Channel V) (evt : UpdateEvent V) (rest : List (UpdateEvent V))
      → c.sub.pump ≡ waiting
      → c.sub.wake ≡ true
      → c.sub.queue ≡ evt ∷ rest
      → Hands c
  awake-Hands c evt rest at awake e =
      let c' : Channel V = record c { sub = pump_woken c.sub } in
      let (d, x, r, same, got) = looking-Hands c' evt rest refl e in
      (d, x, Reach-trans (next here (woken c at awake)) r, same, got)

  waiting-Hands :
      (c : Channel V) (evt : UpdateEvent V) (rest : List (UpdateEvent V))
      → IsFifo c
      → c.sub.pump ≡ waiting
      → c.sub.queue ≡ evt ∷ rest
      → Hands c
  waiting-Hands c evt rest f at e = elim (Bool-cases c.sub.wake) [
    | inl awake ↦ awake-Hands c evt rest at awake e
    | inr asleep ↦
        let c' : Channel V = record c { sub = signal c.sub; signalling = false } in
        let (d, x, r, same, got) = awake-Hands c' evt rest at refl e in
        (d, x, Reach-trans (next here (announce c (ground arith))) r, same, got)
  ]

  nothing_left :
      (c : Channel V)
      → IsFifo c
      → in_hand c.sub.pump ≡ []
      → is_exited c.sub.pump ≡ false
      → c.sub.queue ≡ []
      → c.received ≡ c.sent
  nothing_left c f idle alive e =
      let none_held : f.held ≡ [] = f.at_hand alive ∙ idle in
      sym (append-nil c.received) ∙ (rw (none_held, e) at f.ordered)

  Hands-from :
      (c : Channel V)
      → IsFifo c
      → ¬ (c.received ≡ c.sent)
      → is_exited c.sub.pump ≡ false
      → (p : Pump V) (q : List (UpdateEvent V)) → c.sub.pump ≡ p
      → c.sub.queue ≡ q
      → Hands c
  Hands-from c f more alive looking [] at e =
      absurd (more (nothing_left c f (ground arith) alive e))
  Hands-from c f more alive looking (x ∷ q) at e = looking-Hands c x q at e
  Hands-from c f more alive waiting [] at e =
      absurd (more (nothing_left c f (ground arith) alive e))
  Hands-from c f more alive waiting (x ∷ q) at e = waiting-Hands c x q f at e
  Hands-from c f more alive (sending evt) q at e = sending-Hands c evt at
  Hands-from c f more alive exited q at e = cc

  -- In every interleaving of a producer, the pump, a reader and stop, while the pump has not
  -- returned and something sent is not yet received, some further steps in which nothing new is
  -- sent hand the reader one event more, and it is the first of those sent and not received: no
  -- wake-up is lost.
  pub undelivered_progress :
      {c : Channel V} (client_id : String)
      → Reach (opened client_id) c
      → ¬ (c.received ≡ c.sent)
      → is_exited c.sub.pump ≡ false
      → Delivers c
  undelivered_progress {c} client_id r more alive =
      let f = Reach-IsFifo (opened-IsFifo client_id) r in
      Delivers-next c f (Hands-from c f more alive c.sub.pump c.sub.queue refl refl)
