-- ===== src/Cloud/Published.antt =====
-- What the cloud FSM publishes: the snapshot agrees with its state, and names a thing exactly in the
-- two states that have one.
use arduino_cloud_connector.Common.{
  ℕ, ◌≡◌, refl, Bool, true, false, Option, none, some, List, [], ◌∷◌, arith, str_eq, if◌then◌else◌,
  Bool-cases, inl, inr,
}
use arduino_cloud_connector.Variables.{Registry}
use arduino_cloud_connector.Cloud.{
  Phase, State, disconnected, reconnecting, awaiting_thing_id, syncing_last_values, steady, Event,
  Env, Fsm, new_fsm, send, shutdown, transition, drain_events, apply_properties,
}
use arduino_cloud_connector.Cloud.States.{
  At, enter_reconnecting, enter_connecting, enter_announcing, enter_awaiting, enter_syncing,
  enter_steady, in_backoff, in_awaiting, in_syncing, in_steady, returned, run_reconnecting,
  run_connecting, run_announcing, publish_net_config, run_awaiting, awaiting_tick, awaiting_event,
  run_syncing, syncing_tick, syncing_event, run_steady, steady_event, handle_steady_command,
  reassign,
}
use arduino_cloud_connector.Cloud.Machine.{
  Input, go, done, tick, take, arrive, cancel, change, Machine, start, finish, on_go, on_done,
  on_tick, on_event, on_take, is_returned, run_input, step, run,
}

abbrev pub has_thing : State → Bool
has_thing syncing_last_values = true
has_thing steady = true
has_thing _ = false

-- The places from which a state with a thing goes on.
abbrev wants_thing : At → Bool
wants_thing enter_syncing = true
wants_thing enter_steady = true
wants_thing (in_syncing attempts timer) = true
wants_thing in_steady = true
wants_thing _ = false

-- The state of a select.
abbrev pub parked_state : At → Option State
parked_state (in_backoff delay) = some reconnecting
parked_state (in_awaiting delay max_delay phase) = some awaiting_thing_id
parked_state (in_syncing attempts timer) = some syncing_last_values
parked_state in_steady = some steady
parked_state returned = some disconnected
parked_state _ = none

module _ {V : Type 0} where
  pub record IsPublished (at : At) (f : Fsm V) : Type 0 where
    pub published_state : f.snapshot.state ≡ f.state
    pub published_id : f.snapshot.thing_id ≡ (if has_thing f.state then f.thing_id else "")
    pub real_thing : has_thing f.state ≡ true → str_eq f.thing_id "" ≡ false
    pub thing_ahead : wants_thing at ≡ true → str_eq f.thing_id "" ≡ false
    pub parked : (s : State) → parked_state at ≡ some s → f.state ≡ s

  -- Before the deferred shutdown the state is not the last one yet.
  record IsNearly (p : At × Fsm V) : Type 0 where
    state_ok : p.1.snapshot.state ≡ p.1.state
    id_ok : p.1.snapshot.thing_id ≡ (if has_thing p.1.state then p.1.thing_id else "")
    real_ok : has_thing p.1.state ≡ true → str_eq p.1.thing_id "" ≡ false
    ahead_ok : wants_thing p.0 ≡ true → str_eq p.1.thing_id "" ≡ false
    parked_ok : (s : State) → is_returned p.0 ≡ false → parked_state p.0 ≡ some s → p.1.state ≡ s

  on_go-IsNearly :
      (env : Env V) (seed : ℕ) (cancelled : Bool) (at : At) (f : Fsm V)
      → IsPublished at f
      → is_returned at ≡ false
      → IsNearly (on_go env seed cancelled at f)
  unfolding on_go run_reconnecting run_connecting run_announcing publish_net_config run_awaiting
      run_syncing run_steady transition drain_events
  on_go-IsNearly env seed cancelled enter_reconnecting f p live = ground arith
  on_go-IsNearly env seed cancelled enter_connecting f p live = ground arith
  on_go-IsNearly env seed cancelled enter_announcing f p live = ground arith
  on_go-IsNearly env seed cancelled enter_awaiting f p live = ground arith
  on_go-IsNearly env seed cancelled enter_syncing f p live = ground arith
  on_go-IsNearly env seed cancelled enter_steady f p live = ground arith
  on_go-IsNearly env seed cancelled at f p live = ground arith

  on_done-IsNearly :
      (cancelled : Bool) (at : At) (f : Fsm V)
      → IsPublished at f
      → is_returned at ≡ false
      → IsNearly (on_done cancelled at f)
  unfolding on_done
  on_done-IsNearly cancelled enter_reconnecting f p live = ground arith
  on_done-IsNearly cancelled at f p live = ground arith

  on_tick-IsNearly :
      (env : Env V) (now : ℕ) (at : At) (f : Fsm V)
      → IsPublished at f
      → is_returned at ≡ false
      → IsNearly (on_tick env now at f)
  unfolding on_tick awaiting_tick syncing_tick
  on_tick-IsNearly env now (in_backoff delay) f p live = ground arith
  on_tick-IsNearly env now (in_awaiting delay max_delay phase) f p live = ground arith
  on_tick-IsNearly env now (in_syncing attempts timer) f p live = ground arith
  on_tick-IsNearly env now at f p live = ground arith

  awaiting_event-IsNearly :
      (env : Env V) (delay max_delay : ℕ) (phase : Phase) (ev : Event) (f : Fsm V)
      → IsPublished (in_awaiting delay max_delay phase) f
      → IsNearly (awaiting_event env delay max_delay phase ev f)
  unfolding awaiting_event
  awaiting_event-IsNearly env delay max_delay phase ev f p =
      ground (arith, p.parked awaiting_thing_id refl)

  syncing_event-IsNearly :
      (env : Env V) (now attempts timer : ℕ) (ev : Event) (f : Fsm V)
      → IsPublished (in_syncing attempts timer) f
      → IsNearly (syncing_event env now attempts timer ev f)
  unfolding syncing_event apply_properties
  syncing_event-IsNearly env now attempts timer ev f p =
      ground (arith, p.parked syncing_last_values refl)

  steady_event-IsNearly :
      (env : Env V) (now : ℕ) (ev : Event) (f : Fsm V)
      → IsPublished in_steady f
      → IsNearly (steady_event env now ev f)
  unfolding steady_event handle_steady_command reassign apply_properties transition
  steady_event-IsNearly env now ev f p = ground (arith, p.parked steady refl)

  -- The channel and the registry are no part of what is published.
  keep :
      {at : At} {f : Fsm V} {evs : List Event} {reg : Registry V}
      → IsPublished at f
      → IsPublished at (record f { events = evs; reg = reg })
  keep p = record {
    published_state = p.published_state;
    published_id = p.published_id;
    real_thing = p.real_thing;
    thing_ahead = p.thing_ahead;
    parked = p.parked;
  }

  on_take-IsNearly :
      (env : Env V) (now : ℕ) (at : At) (evs : List Event) (f : Fsm V)
      → IsPublished at f
      → is_returned at ≡ false
      → IsNearly (on_take env now at evs f)
  unfolding on_take on_event
  on_take-IsNearly env now at [] f p live = ground arith
  on_take-IsNearly env now (in_awaiting delay max_delay phase) (ev ∷ evs) f p live =
      awaiting_event-IsNearly env delay max_delay phase ev (record f { events = evs }) (keep p)
  on_take-IsNearly env now (in_syncing attempts timer) (ev ∷ evs) f p live =
      syncing_event-IsNearly env now attempts timer ev (record f { events = evs }) (keep p)
  on_take-IsNearly env now in_steady (ev ∷ evs) f p live =
      steady_event-IsNearly env now ev (record f { events = evs }) (keep p)
  on_take-IsNearly env now at (ev ∷ evs) f p live = ground arith

  finish-IsPublished :
      (env : Env V) (at : At) (f : Fsm V)
      → IsNearly (at, f)
      → IsPublished (finish env (at, f)).0 (finish env (at, f)).1
  unfolding shutdown transition
  finish-IsPublished env returned f n = ground arith
  finish-IsPublished env at f n = ground arith

  run_input-IsPublished :
      (env : Env V) (i : Input V) (m : Machine V)
      → IsPublished m.at m.fsm
      → is_returned m.at ≡ false
      → IsPublished (run_input env i m).at (run_input env i m).fsm
  unfolding send
  run_input-IsPublished env (go seed) m p live =
      finish-IsPublished env _ _ (on_go-IsNearly env seed m.cancelled m.at m.fsm p live)
  run_input-IsPublished env done m p live =
      finish-IsPublished env _ _ (on_done-IsNearly m.cancelled m.at m.fsm p live)
  run_input-IsPublished env (tick now) m p live =
      finish-IsPublished env _ _ (on_tick-IsNearly env now m.at m.fsm p live)
  run_input-IsPublished env (take now) m p live =
      finish-IsPublished env _ _ (on_take-IsNearly env now m.at m.fsm.events m.fsm p live)
  run_input-IsPublished env (arrive ev) m p live = ground arith
  run_input-IsPublished env cancel m p live = p
  run_input-IsPublished env (change reg) m p live = keep p

  step-IsPublished :
      (env : Env V) (m : Machine V) (i : Input V)
      → IsPublished m.at m.fsm
      → IsPublished (step env m i).at (step env m i).fsm
  unfolding step
  step-IsPublished env m i p = elim (Bool-cases (is_returned m.at)) [
    | inl over ↦ rw over p
    | inr live ↦ rw live (run_input-IsPublished env i m p live)
  ]

  -- Every state that the FSM reaches, by any inputs and any answers of the client, is published so.
  pub run-IsPublished :
      (env : Env V) (m : Machine V) (is : List (Input V))
      → IsPublished m.at m.fsm
      → IsPublished (run env m is).at (run env m is).fsm
  unfolding run
  run-IsPublished env m [] p = p
  run-IsPublished env m (i ∷ is) p =
      run-IsPublished env (step env m i) is (step-IsPublished env m i p)

  pub start-IsPublished : (reg : Registry V) → IsPublished (start reg).at (start reg).fsm
  unfolding new_fsm
  start-IsPublished reg = ground arith
