-- ===== src/Cloud/States.antt =====
-- The state functions of fsm.go: each runs up to its select, and each case of a select is a function.
use arduino_cloud_connector.Common.{
  ℕ, ◌+◌, String, Bool, true, false, Option, none, some, [], ltb, leb, ◌==◌, str_eq, if◌then◌else◌,
}
use arduino_cloud_connector.Command.{
  Cmd, thing_begin, thing_update, last_values_begin, last_values_update, device_begin, thing_detach,
  device_net_config,
}
use arduino_cloud_connector.Variables.{apply_last_values}
use arduino_cloud_connector.Cloud.{
  reconnecting, connecting, announcing_device, awaiting_thing_id, syncing_last_values, steady,
  Phase, pending, registered, Event, command_message, property_message, connection_lost, connect,
  disconnect, subscribe_command_channel, subscribe_property_topic, unsubscribe_property_topic,
  publish_command, Env, Fsm, transition, drain_events, call, just_call, apply_properties,
}
use arduino_cloud_connector.Cloud.Backoff.{
  next_conn_backoff, next_thing_id_backoff, thing_id_phase1_base, thing_id_phase1_max,
  thing_id_phase2_base, thing_id_phase2_max, last_values_retry_interval, last_values_max_retries,
}

-- Where the goroutine of Run stands: about to call a state function, or in the select of one, with
-- the variables that the select's loop keeps. The timer's duration is one of them.
pub data At : Type 0 where
  enter_reconnecting enter_connecting enter_announcing enter_awaiting enter_syncing enter_steady :
      At
  in_backoff : ℕ → At
  in_awaiting : ℕ → ℕ → Phase → At
  in_syncing : ℕ → ℕ → At
  in_steady : At
  returned : At

module _ {V : Type 0} (env : Env V) where
  -- f.client.Disconnect(); return f.runReconnecting
  abbrev pub give_up : Fsm V → At × Fsm V
  give_up f = (enter_reconnecting, just_call env disconnect f)

  unfoldable pub run_reconnecting : ℕ → Fsm V → At × Fsm V
  run_reconnecting seed f =
      let f1 = drain_events (transition reconnecting "" f) in
      let delay =
        if f1.conn_backoff == 0
        then env.timers.conn_backoff_base
        else next_conn_backoff f1.conn_backoff seed in
      (in_backoff delay, record f1 { conn_backoff = delay })

  unfoldable pub run_connecting : Bool → Fsm V → At × Fsm V
  run_connecting cancelled f =
      let (failed, f1) = call env connect (transition connecting "" f) in
      if failed
      then (if cancelled then returned else enter_reconnecting, f1)
      else (enter_announcing, record f1 { conn_backoff = 0 })

  unfoldable pub publish_net_config : Fsm V → Fsm V
  publish_net_config f = elim env.net_config [
    | none ↦ f
    | some net_cfg ↦ just_call env (publish_command env.device_id (device_net_config net_cfg)) f
  ]

  unfoldable pub run_announcing : Fsm V → At × Fsm V
  run_announcing f =
      let (e1, f1) =
        call env (subscribe_command_channel env.device_id) (transition announcing_device "" f) in
      if e1
      then give_up f1
      else let (e2, f2) = call env (publish_command env.device_id (device_begin env.version)) f1 in
        if e2 then give_up f2 else (enter_awaiting, publish_net_config f2)

  abbrev pub or_default : ℕ → ℕ → ℕ
  or_default given default = if ltb 0 given then given else default

  unfoldable pub run_awaiting : Fsm V → At × Fsm V
  run_awaiting f =
      let (e, f1) =
        call env (publish_command env.device_id (thing_begin ""))
          (transition awaiting_thing_id "" (record f { thing_id = "" })) in
      if e then give_up f1 else (
        in_awaiting (or_default env.timers.thing_begin_retry thing_id_phase1_base)
            thing_id_phase1_max pending,
        f1,
      )

  -- case <-timer.C
  unfoldable pub awaiting_tick : ℕ → ℕ → Phase → Fsm V → At × Fsm V
  awaiting_tick delay max_delay phase f =
      let (e, f1) = call env (publish_command env.device_id (thing_begin "")) f in
      if e
      then give_up f1
      else (in_awaiting (next_thing_id_backoff delay max_delay) max_delay phase, f1)

  -- A ThingUpdate without a thing id.
  abbrev pub awaiting_empty : ℕ → ℕ → Phase → At
  awaiting_empty delay max_delay pending =
      in_awaiting thing_id_phase2_base thing_id_phase2_max registered
  awaiting_empty delay max_delay registered = in_awaiting delay max_delay registered

  -- case ev := <-f.events
  unfoldable pub awaiting_event : ℕ → ℕ → Phase → Event → Fsm V → At × Fsm V
  awaiting_event delay max_delay phase connection_lost f = (enter_reconnecting, f)
  awaiting_event delay max_delay phase (command_message (some (thing_update id))) f =
      if str_eq id ""
      then (awaiting_empty delay max_delay phase, f)
      else (enter_syncing, record f { thing_id = id })
  awaiting_event delay max_delay phase (command_message cmd) f =
      (in_awaiting delay max_delay phase, f)
  awaiting_event delay max_delay phase (property_message payload) f =
      (in_awaiting delay max_delay phase, f)

  abbrev pub request_last_values : Fsm V → Bool × Fsm V
  request_last_values = call env (publish_command env.device_id last_values_begin)

  unfoldable pub run_syncing : Fsm V → At × Fsm V
  run_syncing f =
      let (e1, f1) =
        call env (subscribe_property_topic f.thing_id)
          (transition syncing_last_values f.thing_id f) in
      if e1
      then give_up f1
      else let (e2, f2) = request_last_values f1 in
        if e2 then give_up f2 else (
          in_syncing 1 (or_default env.timers.last_values_timeout last_values_retry_interval),
          f2,
        )

  unfoldable pub syncing_tick : ℕ → ℕ → Fsm V → At × Fsm V
  syncing_tick now attempts f =
      if leb last_values_max_retries attempts
      then (enter_steady, record f { reg = apply_last_values now [] f.reg })
      else let (e, f1) = request_last_values f in
        if e then give_up f1 else (in_syncing (attempts + 1) env.timers.last_values_timeout, f1)

  unfoldable pub syncing_event : ℕ → ℕ → ℕ → Event → Fsm V → At × Fsm V
  syncing_event now attempts timer connection_lost f = (enter_reconnecting, f)
  syncing_event now attempts timer (command_message (some (last_values_update values))) f =
      (enter_steady, apply_properties env now values true f)
  syncing_event now attempts timer (command_message (some (thing_detach id))) f =
      (enter_awaiting, just_call env (unsubscribe_property_topic f.thing_id) f)
  syncing_event now attempts timer (command_message cmd) f = (in_syncing attempts timer, f)
  syncing_event now attempts timer (property_message payload) f = (in_syncing attempts timer, f)

  unfoldable pub run_steady : Fsm V → At × Fsm V
  run_steady f = (in_steady, transition steady f.thing_id f)

  -- `default` of the switch on the thing id: detach and attach in place.
  unfoldable pub reassign : String → Fsm V → At × Fsm V
  reassign id f =
      let f1 = just_call env (unsubscribe_property_topic f.thing_id) f in
      let f2 = transition steady id (record f1 { thing_id = id }) in
      let (e, f3) = call env (subscribe_property_topic id) f2 in
      if e then give_up f3 else (in_steady, (request_last_values f3).1)

  unfoldable pub handle_steady_command : ℕ → Option Cmd → Fsm V → At × Fsm V
  handle_steady_command now (some (thing_detach id)) f =
      (enter_awaiting, just_call env (unsubscribe_property_topic f.thing_id) f)
  handle_steady_command now (some (thing_update id)) f =
      if str_eq id f.thing_id
      then (in_steady, f)
      else if str_eq id ""
      then (enter_awaiting, just_call env (unsubscribe_property_topic f.thing_id) f)
      else reassign id f
  handle_steady_command now (some (last_values_update values)) f =
      (in_steady, apply_properties env now values true f)
  handle_steady_command now cmd f = (in_steady, f)

  unfoldable pub steady_event : ℕ → Event → Fsm V → At × Fsm V
  steady_event now connection_lost f = (enter_reconnecting, f)
  steady_event now (command_message cmd) f = handle_steady_command now cmd f
  steady_event now (property_message payload) f =
      (in_steady, apply_properties env now payload false f)
