-- ===== src/Daemon/Outbound.antt =====
-- EnqueueVariable and runOutbound: the senders, the channel and the worker with its heap. The heap of
-- container/heap is a list in the order of Less, whose head is what Pop returns. Calls of
-- EnqueueVariable interleave freely between the stamp and the send.
use arduino_cloud_connector.Common.{
  ℕ, suc, ◌+◌, ◌≤◌, ◌<◌, ◌≡◌, String, Bool, true, false, Option, List, [], ◌∷◌, ◌++◌, leb, ltb,
  ◌==◌, length, if◌then◌else◌,
}
use arduino_cloud_connector.Common.Dict.{Dict}
use arduino_cloud_connector.Variables.{Registry, set_value}
use arduino_cloud_connector.Cloud as Cloud
use arduino_cloud_connector.Daemon.Packet.{publish_variable}

abbrev pub outbound_queue_size : ℕ
outbound_queue_size = 256

abbrev pub outbound_reorder_window : ℕ
outbound_reorder_window = 33_000_000

pub record OutboundValue (V : Type 0) : Type 0 where
  pub name : String
  pub value : Option V
  pub ts : ℕ
  pub seq : ℕ
  pub client_id : String

-- `submitting` are the calls that wait for a slot of the channel, `given_up` those that were cancelled
-- there; `clock` is the worker's last reading of the time, and `delivered` and `published` its work,
-- newest first.
pub record Outbound (V : Type 0) : Type 0 where
  pub seq : ℕ
  pub submitting : List (OutboundValue V)
  pub given_up : List (OutboundValue V)
  pub queue : List (OutboundValue V)
  pub pending : List (OutboundValue V)
  pub clock : ℕ
  pub delivered : List (OutboundValue V)
  pub published : List (Option (String × Dict (Option V)))
  pub reg : Registry V

module _ {V : Type 0} where
  abbrev pub new_outbound : Registry V → Outbound V
  new_outbound reg = record {
    seq = 0;
    submitting = [];
    given_up = [];
    queue = [];
    pending = [];
    clock = 0;
    delivered = [];
    published = [];
    reg = reg;
  }

  -- outboundHeap.Less
  unfoldable pub less : OutboundValue V → OutboundValue V → Bool
  less a b = if a.ts == b.ts then ltb a.seq b.seq else ltb a.ts b.ts

  unfoldable pub push : OutboundValue V → List (OutboundValue V) → List (OutboundValue V)
  push v [] = v ∷ []
  push v (p ∷ ps) = if less v p then v ∷ p ∷ ps else p ∷ push v ps

  -- The head of the heap has waited its window.
  abbrev pub is_ripe : ℕ → List (OutboundValue V) → Bool
  is_ripe now [] = false
  is_ripe now (p ∷ ps) = leb (p.ts + outbound_reorder_window) now

  -- EnqueueVariable up to its send: rejected unless steady, else stamped.
  unfoldable pub enqueue_variable :
      Bool → ℕ → String → Option V → String → Outbound V → Bool × Outbound V
  enqueue_variable steady now name value client_id o =
      if steady
      then (
        true,
        record o {
          seq = suc o.seq;
          submitting =
              record {
                name = name;
                value = value;
                ts = now;
                seq = suc o.seq;
                client_id = client_id;
              }
              ∷ o.submitting;
        },
      )
      else (false, o)

  -- d.reg.SetValue and d.publishVariable, with the snapshot that it reads.
  abbrev pub deliver :
      ℕ → Bool → Option Cloud.Snapshot → List (OutboundValue V) → Outbound V → Outbound V
  deliver now is_run cloud [] o = o
  deliver now is_run cloud (v ∷ rest) o =
      let reg = set_value now v.name v.value v.ts v.client_id o.reg in
      record o {
        pending = rest;
        delivered = v ∷ o.delivered;
        reg = reg;
        published = publish_variable is_run cloud v.name v.value reg ∷ o.published;
      }

  -- The head of the worker's loop: it looks at the clock, and delivers a value that is ripe.
  unfoldable pub look : ℕ → Bool → Option Cloud.Snapshot → Outbound V → Outbound V
  look now is_run cloud o =
      let o' = record o { clock = now } in
      if is_ripe now o.pending then deliver now is_run cloud o.pending o' else o'

  -- The select of the worker takes a value; it is reached where nothing is ripe.
  unfoldable pub take : OutboundValue V → List (OutboundValue V) → Outbound V → Outbound V
  take v rest o = record o { queue = rest; pending = push v o.pending }

  -- One step of a sender or of the worker. `timely` may restrict when a value reaches the heap.
  pub data Step (timely : Outbound V → OutboundValue V → Type 0)
      : Outbound V → Outbound V → Type 0 where
    enqueuing :
        (o : Outbound V) (steady : Bool) (now : ℕ) (name : String) (value : Option V)
        (client_id : String)
        → Step timely o (enqueue_variable steady now name value client_id o).1
    sending :
        (o : Outbound V) (before after : List (OutboundValue V)) (v : OutboundValue V)
        → o.submitting ≡ before ++ v ∷ after
        → length o.queue < outbound_queue_size
        → Step timely o (record o { submitting = before ++ after; queue = o.queue ++ v ∷ [] })
    giving_up :
        (o : Outbound V) (before after : List (OutboundValue V)) (v : OutboundValue V)
        → o.submitting ≡ before ++ v ∷ after
        → Step timely o (record o { submitting = before ++ after; given_up = v ∷ o.given_up })
    looking :
        (o : Outbound V) (now : ℕ) (is_run : Bool) (cloud : Option Cloud.Snapshot)
        → o.clock ≤ now
        → Step timely o (look now is_run cloud o)
    taking :
        (o : Outbound V) (v : OutboundValue V) (rest : List (OutboundValue V))
        → o.queue ≡ v ∷ rest
        → is_ripe o.clock o.pending ≡ false
        → timely o v
        → Step timely o (take v rest o)

  pub data Reach (timely : Outbound V → OutboundValue V → Type 0)
      : Outbound V → Outbound V → Type 0 where
    here : (o : Outbound V) → Reach timely o o
    next : (o p q : Outbound V) → Reach timely o p → Step timely p q → Reach timely o q
