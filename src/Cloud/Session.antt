-- ===== src/Cloud/Session.antt =====
-- The cloud FSM keeps the handshake's order, and knows what is subscribed.
use arduino_cloud_connector.Common.{
  ltb, length, ℕ, ◌≡◌, refl, String, Bool, true, false, Option, none, some, List, [], ◌∷◌, arith,
  str_eq, eq_refl, Bool-cases, inl, inr,
}
use arduino_cloud_connector.Variables.{Registry}
use arduino_cloud_connector.Cloud.{
  Phase, Event, Env, Fsm, new_fsm, event_capacity, send, shutdown, transition, drain_events,
  apply_properties,
}
use arduino_cloud_connector.Cloud.Protocol.{is_connected, is_announced, open_topics, is_protocol}
use arduino_cloud_connector.Cloud.States.{
  At, enter_reconnecting, enter_connecting, enter_announcing, enter_awaiting, enter_syncing,
  enter_steady, in_backoff, in_awaiting, in_syncing, in_steady, returned, run_reconnecting,
  run_connecting, run_announcing, publish_net_config, run_awaiting, awaiting_tick, awaiting_event,
  run_syncing, syncing_tick, syncing_event, run_steady, steady_event, handle_steady_command,
  reassign,
}
use arduino_cloud_connector.Cloud.Machine.{
  Input, go, done, tick, take, arrive, cancel, change, Machine, start, finish, on_go, on_done,
  on_tick, on_event, on_take, is_returned, run_input, step, run,
}

-- The places at which the FSM holds itself connected; from enter_awaiting on it has announced itself.
abbrev pub is_linked : At → Bool
is_linked enter_announcing = true
is_linked enter_awaiting = true
is_linked (in_awaiting delay max_delay phase) = true
is_linked enter_syncing = true
is_linked (in_syncing attempts timer) = true
is_linked enter_steady = true
is_linked in_steady = true
is_linked _ = false

abbrev pub is_introduced : At → Bool
is_introduced enter_announcing = false
is_introduced at = is_linked at

-- The property topics that are open at a place, where that is known.
abbrev pub expected_topics : At → String → Option (List String)
expected_topics enter_announcing thing_id = some []
expected_topics enter_awaiting thing_id = some []
expected_topics (in_awaiting delay max_delay phase) thing_id = some []
expected_topics enter_syncing thing_id = some []
expected_topics (in_syncing attempts timer) thing_id = some (thing_id ∷ [])
expected_topics enter_steady thing_id = some (thing_id ∷ [])
expected_topics in_steady thing_id = some (thing_id ∷ [])
expected_topics _ thing_id = none

abbrev wants_thing : At → Bool
wants_thing enter_syncing = true
wants_thing enter_steady = true
wants_thing (in_syncing attempts timer) = true
wants_thing in_steady = true
wants_thing _ = false

module _ {V : Type 0} where
  pub record IsSession (at : At) (f : Fsm V) : Type 0 where
    pub connected : is_linked at ≡ true → is_connected f.log ≡ true
    pub announced : is_introduced at ≡ true → is_announced f.log ≡ true
    pub topics :
        (ts : List String) → expected_topics at f.thing_id ≡ some ts → open_topics f.log ≡ ts
    pub in_order : is_protocol f.log ≡ true
    pub thing_ahead : wants_thing at ≡ true → str_eq f.thing_id "" ≡ false

  on_go-IsSession :
      (env : Env V) (seed : ℕ) (cancelled : Bool) (at : At) (f : Fsm V)
      → IsSession at f
      → IsSession (on_go env seed cancelled at f).0 (on_go env seed cancelled at f).1
  unfolding on_go run_reconnecting run_connecting run_announcing publish_net_config run_awaiting
      run_syncing run_steady transition drain_events
  on_go-IsSession env seed cancelled enter_reconnecting f p = ground arith
  on_go-IsSession env seed cancelled enter_connecting f p = ground arith
  on_go-IsSession env seed cancelled enter_announcing f p = ground (arith, p.topics [] refl)
  on_go-IsSession env seed cancelled enter_awaiting f p = ground (arith, p.topics [] refl)
  on_go-IsSession env seed cancelled enter_syncing f p = ground (arith, p.topics [] refl)
  on_go-IsSession env seed cancelled enter_steady f p =
      ground (arith, p.topics (f.thing_id ∷ []) refl)
  on_go-IsSession env seed cancelled at f p = p

  on_tick-IsSession :
      (env : Env V) (now : ℕ) (at : At) (f : Fsm V)
      → IsSession at f
      → IsSession (on_tick env now at f).0 (on_tick env now at f).1
  unfolding on_tick awaiting_tick syncing_tick
  on_tick-IsSession env now (in_backoff delay) f p = ground arith
  on_tick-IsSession env now (in_awaiting delay max_delay phase) f p =
      ground (arith, p.topics [] refl)
  on_tick-IsSession env now (in_syncing attempts timer) f p =
      ground (arith, p.topics (f.thing_id ∷ []) refl)
  on_tick-IsSession env now at f p = p

  awaiting_event-IsSession :
      (env : Env V) (delay max_delay : ℕ) (phase : Phase) (ev : Event) (f : Fsm V)
      → IsSession (in_awaiting delay max_delay phase) f
      → IsSession
          (awaiting_event env delay max_delay phase ev f).0
          (awaiting_event env delay max_delay phase ev f).1
  unfolding awaiting_event
  awaiting_event-IsSession env delay max_delay phase ev f p = ground (arith, p.topics [] refl)

  syncing_event-IsSession :
      (env : Env V) (now attempts timer : ℕ) (ev : Event) (f : Fsm V)
      → IsSession (in_syncing attempts timer) f
      → IsSession
          (syncing_event env now attempts timer ev f).0
          (syncing_event env now attempts timer ev f).1
  unfolding syncing_event apply_properties
  syncing_event-IsSession env now attempts timer ev f p =
      ground (arith, p.topics (f.thing_id ∷ []) refl, eq_refl f.thing_id)

  steady_event-IsSession :
      (env : Env V) (now : ℕ) (ev : Event) (f : Fsm V)
      → IsSession in_steady f
      → IsSession (steady_event env now ev f).0 (steady_event env now ev f).1
  unfolding steady_event handle_steady_command reassign apply_properties transition
  steady_event-IsSession env now ev f p =
      ground (arith, p.topics (f.thing_id ∷ []) refl, eq_refl f.thing_id)

  keep :
      {at : At} {f : Fsm V} {evs : List Event} {reg : Registry V}
      → IsSession at f
      → IsSession at (record f { events = evs; reg = reg })
  keep p = record {
    connected = p.connected;
    announced = p.announced;
    topics = p.topics;
    in_order = p.in_order;
    thing_ahead = p.thing_ahead;
  }

  on_take-IsSession :
      (env : Env V) (now : ℕ) (at : At) (evs : List Event) (f : Fsm V)
      → IsSession at f
      → IsSession (on_take env now at evs f).0 (on_take env now at evs f).1
  unfolding on_take on_event
  on_take-IsSession env now at [] f p = p
  on_take-IsSession env now (in_awaiting delay max_delay phase) (ev ∷ evs) f p =
      awaiting_event-IsSession env delay max_delay phase ev (record f { events = evs }) (keep p)
  on_take-IsSession env now (in_syncing attempts timer) (ev ∷ evs) f p =
      syncing_event-IsSession env now attempts timer ev (record f { events = evs }) (keep p)
  on_take-IsSession env now in_steady (ev ∷ evs) f p =
      steady_event-IsSession env now ev (record f { events = evs }) (keep p)
  on_take-IsSession env now at (ev ∷ evs) f p = p

  on_done-IsSession :
      (cancelled : Bool) (at : At) (f : Fsm V)
      → IsSession at f
      → IsSession (on_done cancelled at f).0 (on_done cancelled at f).1
  unfolding on_done
  on_done-IsSession false at f p = p
  on_done-IsSession true enter_reconnecting f p = p
  on_done-IsSession true at f p = ground arith

  finish-IsSession :
      (env : Env V) (at : At) (f : Fsm V)
      → IsSession at f
      → IsSession (finish env (at, f)).0 (finish env (at, f)).1
  unfolding shutdown transition
  finish-IsSession env returned f p = ground arith
  finish-IsSession env at f p = p

  send-IsSession : (ev : Event) (at : At) (f : Fsm V) → IsSession at f → IsSession at (send ev f)
  unfolding send
  send-IsSession ev at f p = elim (Bool-cases (ltb (length f.events) event_capacity)) [
    | inl e ↦ rw (e, send) (keep p)
    | inr e ↦ rw (e, send) p
  ]

  run_input-IsSession :
      (env : Env V) (i : Input V) (m : Machine V)
      → IsSession m.at m.fsm
      → IsSession (run_input env i m).at (run_input env i m).fsm
  run_input-IsSession env (go seed) m p =
      finish-IsSession env _ _ (on_go-IsSession env seed m.cancelled m.at m.fsm p)
  run_input-IsSession env done m p =
      finish-IsSession env _ _ (on_done-IsSession m.cancelled m.at m.fsm p)
  run_input-IsSession env (tick now) m p =
      finish-IsSession env _ _ (on_tick-IsSession env now m.at m.fsm p)
  run_input-IsSession env (take now) m p =
      finish-IsSession env _ _ (on_take-IsSession env now m.at m.fsm.events m.fsm p)
  run_input-IsSession env (arrive ev) m p = send-IsSession ev m.at m.fsm p
  run_input-IsSession env cancel m p = p
  run_input-IsSession env (change reg) m p = keep p

  step-IsSession :
      (env : Env V) (m : Machine V) (i : Input V)
      → IsSession m.at m.fsm
      → IsSession (step env m i).at (step env m i).fsm
  unfolding step
  step-IsSession env m i p = elim (Bool-cases (is_returned m.at)) [
    | inl over ↦ rw over p
    | inr live ↦ rw live (run_input-IsSession env i m p)
  ]

  pub run-IsSession :
      (env : Env V) (m : Machine V) (is : List (Input V))
      → IsSession m.at m.fsm
      → IsSession (run env m is).at (run env m is).fsm
  unfolding run
  run-IsSession env m [] p = p
  run-IsSession env m (i ∷ is) p = run-IsSession env (step env m i) is (step-IsSession env m i p)

  pub start-IsSession : (reg : Registry V) → IsSession (start reg).at (start reg).fsm
  unfolding new_fsm
  start-IsSession reg = ground arith
