-- ===== src/Variables/Delivery.antt =====
-- The pump goroutine of a subscription, interleaved with a producer and a reader in any order.
use mathlib.Core.List.{append_assoc, append-nil}
use arduino_cloud_connector.Common.{
  ◌≡◌, refl, sym, ◌∙◌, String, Bool, true, false, ◌||◌, List, [], ◌∷◌, ◌++◌, arith,
}
use arduino_cloud_connector.Variables.{
  UpdateEvent, Subscription, Pump, looking, waiting, sending, exited, append_event, signal, stop,
  new_subscription, pump_look, pump_woken, pump_handed, pump_leave,
}

-- A subscription in use: whether a producer stands between its append and its signal, and what was
-- sent and received so far.
pub record Channel (V : Type 0) : Type 0 where
  pub sub : Subscription V
  pub signalling : Bool
  pub sent : List (UpdateEvent V)
  pub received : List (UpdateEvent V)

module _ {V : Type 0} where
  abbrev pub opened : String → Channel V
  opened client_id = record {
    sub = new_subscription client_id;
    signalling = false;
    sent = [];
    received = [];
  }

  pub data Step : Channel V → Channel V → Type 0 where
    append :
        (c : Channel V) (evt : UpdateEvent V)
        → c.signalling ≡ false
        → Step c (record c {
          sub = append_event evt c.sub;
          signalling = true;
          sent = c.sent ++ evt ∷ [];
        })
    announce :
        (c : Channel V)
        → c.signalling ≡ true
        → Step c (record c { sub = signal c.sub; signalling = false })
    look : (c : Channel V) → c.sub.pump ≡ looking → Step c (record c { sub = pump_look c.sub })
    woken :
        (c : Channel V)
        → c.sub.pump ≡ waiting
        → c.sub.wake ≡ true
        → Step c (record c { sub = pump_woken c.sub })
    handed :
        (c : Channel V) (evt : UpdateEvent V)
        → c.sub.pump ≡ sending evt
        → Step c (record c { sub = pump_handed c.sub; received = c.received ++ evt ∷ [] })
    leave_waiting :
        (c : Channel V)
        → c.sub.pump ≡ waiting
        → c.sub.closed ≡ true
        → Step c (record c { sub = pump_leave c.sub })
    leave_sending :
        (c : Channel V) (evt : UpdateEvent V)
        → c.sub.pump ≡ sending evt
        → c.sub.closed ≡ true
        → Step c (record c { sub = pump_leave c.sub })
    stopped : (c : Channel V) → Step c (record c { sub = stop c.sub })

  pub data Reach (c : Channel V) : Channel V → Type 0 where
    here : Reach c c
    next : {d e : Channel V} → Reach c d → Step d e → Reach c e

  abbrev pub in_hand : Pump V → List (UpdateEvent V)
  in_hand looking = []
  in_hand waiting = []
  in_hand (sending evt) = evt ∷ []
  in_hand exited = []

  abbrev pub is_exited : Pump V → Bool
  is_exited exited = true
  is_exited _ = false

  abbrev pub is_waiting : Pump V → Bool
  is_waiting waiting = true
  is_waiting _ = false

  abbrev pub is_empty : List (UpdateEvent V) → Bool
  is_empty [] = true
  is_empty (_ ∷ _) = false

  -- Every event sent is received, held or queued, in the order of sending; and the pump does not
  -- sleep on a queue that nobody will announce.
  pub record IsFifo (c : Channel V) : Type 0 where
    pub held : List (UpdateEvent V)
    pub ordered : c.received ++ (held ++ c.sub.queue) ≡ c.sent
    pub at_hand : is_exited c.sub.pump ≡ false → held ≡ in_hand c.sub.pump
    pub wakeful :
        is_waiting c.sub.pump ≡ true
        → is_empty c.sub.queue ≡ false
        → (c.sub.wake || c.signalling) ≡ true

  look-IsFifo :
      (c : Channel V)
      → c.sub.pump ≡ looking
      → IsFifo c
      → (q : List (UpdateEvent V)) → c.sub.queue ≡ q
      → IsFifo (record c { sub = pump_look c.sub })
  unfolding pump_look
  look-IsFifo c at f [] e = record {
    held = [];
    ordered = ground arith;
    at_hand = λ a. ground arith;
    wakeful = λ a b. ground arith;
  }
  look-IsFifo c at f (x ∷ q) e = record {
    held = x ∷ [];
    ordered = ground arith;
    at_hand = λ a. ground arith;
    wakeful = λ a b. ground arith;
  }

  Step-IsFifo : {c d : Channel V} → Step c d → IsFifo c → IsFifo d
  unfolding pump_look stop
  Step-IsFifo (append c evt free) f = record {
    held = f.held;
    ordered = rw (← f.ordered) (simp append_assoc);
    at_hand = f.at_hand;
    wakeful = λ a b. ground arith;
  }
  Step-IsFifo (announce c busy) f = record {
    held = f.held;
    ordered = f.ordered;
    at_hand = f.at_hand;
    wakeful = λ a b. refl;
  }
  Step-IsFifo (look c at) f = look-IsFifo c at f c.sub.queue refl
  Step-IsFifo (woken c at awake) f = record {
    held = f.held;
    ordered = f.ordered;
    at_hand = λ e. ground arith;
    wakeful = λ e. cc;
  }
  Step-IsFifo (handed c evt at) f = record {
    held = [];
    ordered = rw append_assoc (ground arith);
    at_hand = λ e. refl;
    wakeful = λ e. cc;
  }
  Step-IsFifo (leave_waiting c at over) f = record {
    held = f.held;
    ordered = f.ordered;
    at_hand = λ e. cc;
    wakeful = λ e. cc;
  }
  Step-IsFifo (leave_sending c evt at over) f = record {
    held = f.held;
    ordered = f.ordered;
    at_hand = λ e. cc;
    wakeful = λ e. cc;
  }
  Step-IsFifo (stopped c) f = record {
    held = f.held;
    ordered = ground arith;
    at_hand = λ e. ground arith;
    wakeful = λ a b. ground arith;
  }

  pub opened-IsFifo : (client_id : String) → IsFifo (opened client_id)
  unfolding new_subscription
  opened-IsFifo client_id = record {
    held = [];
    ordered = refl;
    at_hand = λ e. refl;
    wakeful = λ a b. cc;
  }

  pub Reach-IsFifo : {c d : Channel V} → IsFifo c → Reach c d → IsFifo d
  Reach-IsFifo f here = f
  Reach-IsFifo f (next r s) = Step-IsFifo s (Reach-IsFifo f r)

  -- In every interleaving of a producer, the pump, a reader and stop, what the reader received is a
  -- prefix of what was enqueued: events arrive in order, none twice, none out of the middle.
  pub received_prefix :
      {c : Channel V} (client_id : String)
      → Reach (opened client_id) c
      → (rest : List (UpdateEvent V)) × (c.received ++ rest ≡ c.sent)
  received_prefix client_id r =
      let f = Reach-IsFifo (opened-IsFifo client_id) r in (f.held ++ _, f.ordered)

  asleep_empty :
      (c : Channel V)
      → IsFifo c
      → c.sub.pump ≡ waiting
      → c.sub.wake ≡ false
      → c.signalling ≡ false
      → (q : List (UpdateEvent V)) → c.sub.queue ≡ q
      → c.sub.queue ≡ []
  asleep_empty c f at still free [] e = e
  asleep_empty c f at still free (x ∷ q) e = ground arith

  -- In every interleaving, when the pump sleeps in its first select, no wake-up is buffered and no
  -- producer is about to signal, every event enqueued was received.
  pub asleep_delivered :
      {c : Channel V} (client_id : String)
      → Reach (opened client_id) c
      → c.sub.pump ≡ waiting
      → c.sub.wake ≡ false
      → c.signalling ≡ false
      → c.received ≡ c.sent
  asleep_delivered {c} client_id r at still free =
      let f = Reach-IsFifo (opened-IsFifo client_id) r in
      let none_left : c.sub.queue ≡ [] = asleep_empty c f at still free c.sub.queue refl in
      let none_held : f.held ≡ [] = ground arith in
      sym (append-nil c.received) ∙ (rw (none_held, none_left) at f.ordered)
