-- ===== src/Cloud/Machine.antt =====
-- The cloud FSM as a machine: which step each input makes, and the runs that inputs make.
use arduino_cloud_connector.Common.{ℕ, Bool, true, false, List, [], ◌∷◌, if◌then◌else◌}
use arduino_cloud_connector.Variables.{Registry}
use arduino_cloud_connector.Cloud.{Event, Env, Fsm, new_fsm, send, shutdown}
use arduino_cloud_connector.Cloud.States.{
  At, enter_reconnecting, enter_connecting, enter_announcing, enter_awaiting, enter_syncing,
  enter_steady, in_backoff, in_awaiting, in_syncing, in_steady, returned, run_reconnecting,
  run_connecting, run_announcing, run_awaiting, awaiting_tick, awaiting_event, run_syncing,
  syncing_tick, syncing_event, run_steady, steady_event,
}

-- What happens next: the goroutine runs a state function (with the random number that it draws),
-- or its select takes a case: the cancelled context, the timer, the first event of the channel (with
-- the time that it reads). The rest is the world's: a message arrives, the context is cancelled,
-- another goroutine leaves a changed registry.
pub data Input (V : Type 0) : Type 0 where
  go : ℕ → Input V
  done : Input V
  tick : ℕ → Input V
  take : ℕ → Input V
  arrive : Event → Input V
  cancel : Input V
  change : Registry V → Input V

pub record Machine (V : Type 0) : Type 0 where
  pub at : At
  pub fsm : Fsm V
  pub cancelled : Bool

abbrev pub is_select : At → Bool
is_select (in_backoff delay) = true
is_select (in_awaiting delay max_delay phase) = true
is_select (in_syncing attempts timer) = true
is_select in_steady = true
is_select _ = false

-- The selects that read f.events.
abbrev pub reads_events : At → Bool
reads_events (in_awaiting delay max_delay phase) = true
reads_events (in_syncing attempts timer) = true
reads_events in_steady = true
reads_events _ = false

abbrev pub is_returned : At → Bool
is_returned returned = true
is_returned _ = false

module _ {V : Type 0} where
  abbrev pub start : Registry V → Machine V
  start reg = record { at = enter_reconnecting; fsm = new_fsm reg; cancelled = false }

  abbrev pub moved : Machine V → At × Fsm V → Machine V
  moved m (at, f) = record m { at = at; fsm = f }

  -- `return nil` from a state function: the deferred shutdown runs, and Run returns.
  abbrev pub finish : Env V → At × Fsm V → At × Fsm V
  finish env (returned, f) = (returned, shutdown env f)
  finish env (at, f) = (at, f)

  -- An input that is not enabled changes nothing.
  unfoldable pub on_go : Env V → ℕ → Bool → At → Fsm V → At × Fsm V
  on_go env seed cancelled enter_reconnecting f = run_reconnecting env seed f
  on_go env seed cancelled enter_connecting f = run_connecting env cancelled f
  on_go env seed cancelled enter_announcing f = run_announcing env f
  on_go env seed cancelled enter_awaiting f = run_awaiting env f
  on_go env seed cancelled enter_syncing f = run_syncing env f
  on_go env seed cancelled enter_steady f = run_steady env f
  on_go env seed cancelled at f = (at, f)

  unfoldable pub on_done : Bool → At → Fsm V → At × Fsm V
  on_done cancelled at f = if cancelled then (if is_select at then returned else at, f) else (at, f)

  unfoldable pub on_tick : Env V → ℕ → At → Fsm V → At × Fsm V
  on_tick env now (in_backoff delay) f = (enter_connecting, f)
  on_tick env now (in_awaiting delay max_delay phase) f = awaiting_tick env delay max_delay phase f
  on_tick env now (in_syncing attempts timer) f = syncing_tick env now attempts f
  on_tick env now at f = (at, f)

  unfoldable pub on_event : Env V → ℕ → At → Event → Fsm V → At × Fsm V
  on_event env now (in_awaiting delay max_delay phase) ev f =
      awaiting_event env delay max_delay phase ev f
  on_event env now (in_syncing attempts timer) ev f = syncing_event env now attempts timer ev f
  on_event env now in_steady ev f = steady_event env now ev f
  on_event env now at ev f = (at, f)

  unfoldable pub on_take : Env V → ℕ → At → List Event → Fsm V → At × Fsm V
  on_take env now at [] f = (at, f)
  on_take env now at (ev ∷ evs) f =
      if reads_events at then on_event env now at ev (record f { events = evs }) else (at, f)

  abbrev pub run_input : Env V → Input V → Machine V → Machine V
  run_input env (go seed) m = moved m (finish env (on_go env seed m.cancelled m.at m.fsm))
  run_input env done m = moved m (finish env (on_done m.cancelled m.at m.fsm))
  run_input env (tick now) m = moved m (finish env (on_tick env now m.at m.fsm))
  run_input env (take now) m = moved m (finish env (on_take env now m.at m.fsm.events m.fsm))
  run_input env (arrive ev) m = record m { fsm = send ev m.fsm }
  run_input env cancel m = record m { cancelled = true }
  run_input env (change reg) m = record m { fsm = record m.fsm { reg = reg } }

  -- After Run has returned nothing moves.
  unfoldable pub step : Env V → Machine V → Input V → Machine V
  step env m i = if is_returned m.at then m else run_input env i m

  unfoldable pub run : Env V → Machine V → List (Input V) → Machine V
  run env m [] = m
  run env m (i ∷ is) = run env (step env m i) is
