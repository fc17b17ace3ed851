-- ===== src/Variables/Queue.antt =====
-- internal/variables/variables.go: a subscription, its queue and the pump goroutine that empties it.
use arduino_cloud_connector.Common.{
  ℕ, String, Bool, true, false, not, Option, List, [], ◌∷◌, ◌++◌, if◌then◌else◌,
}

pub data EventKind : Type 0 where
  changed last_value last_value_missing thing_unavailable : EventKind

pub record UpdateEvent (V : Type 0) : Type 0 where
  pub name : String
  pub value : Option V
  pub timestamp : ℕ
  pub is_last_value : Bool
  pub kind : EventKind

-- Where the pump goroutine stands: at the top of its loop, in the first select, in the second one
-- with an event in hand, or returned.
pub data Pump (V : Type 0) : Type 0 where
  looking waiting : Pump V
  sending : UpdateEvent V → Pump V
  exited : Pump V

pub record Subscription (V : Type 0) : Type 0 where
  pub client_id : String
  pub queue : List (UpdateEvent V)
  pub wake : Bool
  pub closed : Bool
  pub pending : Bool
  pub pump : Pump V

module _ {V : Type 0} where
  unfoldable pub new_subscription : String → Subscription V
  new_subscription client_id = record {
    client_id = client_id;
    queue = [];
    wake = false;
    closed = false;
    pending = false;
    pump = looking;
  }

  abbrev pub append_event : UpdateEvent V → Subscription V → Subscription V
  append_event evt s = record s { queue = s.queue ++ evt ∷ [] }

  abbrev pub signal : Subscription V → Subscription V
  signal s = record s { wake = true }

  unfoldable pub enqueue : UpdateEvent V → Subscription V → Subscription V
  enqueue evt s = signal (append_event evt s)

  unfoldable pub stop : Subscription V → Subscription V
  stop s = if not s.closed then record s { closed = true } else s

  -- The top of the pump's loop: park on the first select, or take the head of the queue in hand.
  unfoldable pub pump_look : Subscription V → Subscription V
  pump_look s = elim s.queue [
    | [] ↦ record s { pump = waiting }
    | evt ∷ rest ↦ record s { queue = rest; pump = sending evt }
  ]

  -- `case <-s.wake: continue`
  abbrev pub pump_woken : Subscription V → Subscription V
  pump_woken s = record s { wake = false; pump = looking }

  -- `case s.events <- evt:` and round the loop
  abbrev pub pump_handed : Subscription V → Subscription V
  pump_handed s = record s { pump = looking }

  -- `case <-s.closeCh: return`, in either select
  abbrev pub pump_leave : Subscription V → Subscription V
  pump_leave s = record s { pump = exited }
