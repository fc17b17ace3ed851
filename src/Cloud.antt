-- ===== src/Cloud.antt =====
-- internal/daemon/cloud/fsm.go: the state of the cloud FSM and its helpers.
-- A call of the MQTT client is written to a log, newest first, with the error flag that the
-- environment chooses from the calls made before it.
pub mod Backoff
pub mod States
pub mod Machine
pub mod Published
pub mod Protocol
pub mod Session
pub mod Sync
pub mod Retry
pub mod Shutdown
pub mod Reachable
mod Examples
use arduino_cloud_connector.Common.{
  ℕ, String, Bool, true, false, Option, none, some, List, [], ◌∷◌, ◌++◌, ltb, length, str_eq,
  if◌then◌else◌,
}
use arduino_cloud_connector.Command.{Cmd, DeviceNetConfig}
use arduino_cloud_connector.Variables.{Variable, Registry, set_value, apply_last_values}

pub data State : Type 0 where
  disconnected reconnecting connecting announcing_device awaiting_thing_id syncing_last_values
        steady :
      State

pub data Phase : Type 0 where
  pending registered : Phase

pub record Timers : Type 0 where
  pub conn_backoff_base : ℕ
  pub thing_begin_retry : ℕ
  pub last_values_timeout : ℕ

-- A command whose inner value is nil is `none`.
pub data Event : Type 0 where
  command_message : Option Cmd → Event
  property_message : List ℕ → Event
  connection_lost : Event

pub record Snapshot : Type 0 where
  pub state : State
  pub thing_id : String

-- mqtt.Client, as far as the two machines call it.
pub data Call : Type 0 where
  connect disconnect : Call
  subscribe_command_channel : String → Call
  subscribe_property_topic : String → Call
  unsubscribe_property_topic : String → Call
  publish_command : String → Cmd → Call
  publish_property : String → List ℕ → Call

abbrev pub Log : Type 0
Log = List (Call × Bool)

-- What the FSM is given: its configuration, the answers of the client, the network report of
-- system.NetConfig and the decoder of property payloads.
pub record Env (V : Type 0) : Type 0 where
  pub device_id : String
  pub version : String
  pub timers : Timers
  pub fails : Log → Call → Bool
  pub net_config : Option DeviceNetConfig
  pub decode : List ℕ → Option (List (Variable V))

pub record Fsm (V : Type 0) : Type 0 where
  pub state : State
  pub thing_id : String
  pub conn_backoff : ℕ
  pub snapshot : Snapshot
  pub events : List Event
  pub log : Log
  pub reg : Registry V

abbrev pub event_capacity : ℕ
event_capacity = 64

module _ {V : Type 0} where
  unfoldable pub new_fsm : Registry V → Fsm V
  new_fsm reg = record {
    state = disconnected;
    thing_id = "";
    conn_backoff = 0;
    snapshot = record { state = disconnected; thing_id = "" };
    events = [];
    log = [];
    reg = reg;
  }

  unfoldable pub transition : State → String → Fsm V → Fsm V
  transition state thing_id f = record f {
    state = state;
    snapshot = record { state = state; thing_id = thing_id };
  }

  -- A full channel drops the event.
  unfoldable pub send : Event → Fsm V → Fsm V
  send ev f =
      if ltb (length f.events) event_capacity then record f { events = f.events ++ ev ∷ [] } else f

  unfoldable pub drain_events : Fsm V → Fsm V
  drain_events f = record f { events = [] }

  -- One call of the client; `true` says that it returned an error.
  abbrev pub call : Env V → Call → Fsm V → Bool × Fsm V
  call env c f = let failed = env.fails f.log c in (failed, record f { log = (c, failed) ∷ f.log })

  -- A call whose error is ignored, or that returns none.
  abbrev pub just_call : Env V → Call → Fsm V → Fsm V
  just_call env c f = record f { log = (c, env.fails f.log c) ∷ f.log }

  unfoldable pub set_values : ℕ → List (Variable V) → Registry V → Registry V
  set_values now [] r = r
  set_values now (v ∷ vs) r = set_values now vs (set_value now v.name v.value v.timestamp "" r)

  -- `vars, err` before the branch on isLastValues; an error is `none`.
  abbrev pub decode_payload : Env V → List ℕ → Option (List (Variable V))
  decode_payload env [] = some []
  decode_payload env (b ∷ bs) = env.decode (b ∷ bs)

  abbrev pub apply_live : ℕ → Option (List (Variable V)) → Registry V → Registry V
  apply_live now none r = r
  apply_live now (some vs) r = set_values now vs r

  abbrev pub decoded_or_none : Option (List (Variable V)) → List (Variable V)
  decoded_or_none none = []
  decoded_or_none (some vs) = vs

  unfoldable pub apply_properties : Env V → ℕ → List ℕ → Bool → Fsm V → Fsm V
  apply_properties env now payload is_last_values f =
      let vars = decode_payload env payload in
      record f {
        reg =
            if is_last_values
            then apply_last_values now (decoded_or_none vars) f.reg
            else apply_live now vars f.reg;
      }

  unfoldable pub shutdown : Env V → Fsm V → Fsm V
  shutdown env f =
      let f1 =
        if str_eq f.thing_id ""
        then f
        else just_call env (unsubscribe_property_topic f.thing_id) f in
      transition disconnected "" (just_call env disconnect f1)
