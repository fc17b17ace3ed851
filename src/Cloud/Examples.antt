-- ===== src/Cloud/Examples.antt =====
-- The theorems on the cloud FSM at a client that accepts every call.
use arduino_cloud_connector.Common.{
  ℕ, ◌+◌, ◌*◌, ◌/◌, ◌<◌, ◌≡◌, refl, true, false, none, some, List, [], ◌∷◌, arith,
}
use arduino_cloud_connector.Command.{thing_update, last_values_update}
use arduino_cloud_connector.Variables.{Registry, new_registry}
use arduino_cloud_connector.Variables.Wellformed.{new_registry-IsWellformed}
use arduino_cloud_connector.Cloud.{
  Env, command_message, steady, disconnected, new_fsm, transition, drain_events, send,
  apply_properties,
}
use arduino_cloud_connector.Cloud.Backoff.{second, doubled, next_conn_backoff, thing_id_phase1_base}
use arduino_cloud_connector.Cloud.Protocol.{is_connected, open_topics}
use arduino_cloud_connector.Cloud.States.{
  in_syncing, in_steady, returned, run_reconnecting, run_connecting, run_announcing,
  publish_net_config, run_awaiting, awaiting_event, run_syncing, syncing_event, run_steady,
}
use arduino_cloud_connector.Cloud.Machine.{
  Input, go, tick, take, arrive, Machine, start, on_go, on_tick, on_take, on_event, step, run,
}
use arduino_cloud_connector.Cloud.Published.{IsPublished}
use arduino_cloud_connector.Cloud.Session.{IsSession}
use arduino_cloud_connector.Cloud.Reachable.{reachable-IsPublished, reachable-IsSession}
use arduino_cloud_connector.Cloud.Sync.{IsAnswered, step_enters-IsAnswered}
use arduino_cloud_connector.Cloud.Retry.{
  next_conn_backoff_overshoots, sync_gives_up, ticks, machine, is_over,
}
use arduino_cloud_connector.Cloud.Shutdown.{wind_down, wind_down_returns, start-IsClosed}

abbrev willing : Env ℕ
willing = record {
  device_id = "dev";
  version = "1.0";
  timers = record {
    conn_backoff_base = second;
    thing_begin_retry = thing_id_phase1_base;
    last_values_timeout = 15 * second;
  };
  fails = λ l c. false;
  net_config = none;
  decode = λ payload. none;
}

abbrev fresh : Registry ℕ
fresh = new_registry

-- The handshake up to Steady.
abbrev handshake : List (Input ℕ)
handshake =
    go 0
    ∷ tick 1
    ∷ go 0
    ∷ go 0
    ∷ go 0
    ∷ arrive (command_message (some (thing_update "thing")))
    ∷ take 2
    ∷ go 0
    ∷ arrive (command_message (some (last_values_update [])))
    ∷ take 3
    ∷ go 0
    ∷ []

handshake_steady :
    ((run willing (start fresh) handshake).at ≡ in_steady)
    × ((run willing (start fresh) handshake).fsm.snapshot
        ≡ record { state = steady; thing_id = "thing" })
unfolding run step on_go on_tick on_take on_event run_reconnecting run_connecting run_announcing
    publish_net_config run_awaiting awaiting_event run_syncing syncing_event run_steady new_fsm
    transition drain_events send apply_properties
handshake_steady = (refl, refl)

reachable-IsPublished_example :
    IsPublished (run willing (start fresh) handshake).at (run willing (start fresh) handshake).fsm
reachable-IsPublished_example = reachable-IsPublished willing fresh handshake

reachable-IsSession_example :
    IsSession (run willing (start fresh) handshake).at (run willing (start fresh) handshake).fsm
reachable-IsSession_example = reachable-IsSession willing fresh handshake

-- The machine in its synchronisation, with the answer of the cloud in the channel.
abbrev synced : Machine ℕ
synced = record {
  at = in_syncing 1 (15 * second);
  fsm = record (new_fsm fresh) {
    thing_id = "thing";
    events = command_message (some (last_values_update [])) ∷ [];
  };
  cancelled = false;
}

step_enters-IsAnswered_example : IsAnswered (step willing synced (take 3)).fsm.reg
unfolding new_fsm step on_take on_event syncing_event
step_enters-IsAnswered_example =
    step_enters-IsAnswered willing (λ _. "temp") synced (take 3)
      (new_registry-IsWellformed (λ _. "temp")) refl refl

next_conn_backoff_overshoots_example :
    doubled (5 * second) + doubled (5 * second) / 10 < next_conn_backoff (5 * second) 9
next_conn_backoff_overshoots_example =
    next_conn_backoff_overshoots (5 * second) 9 (omega arith) (omega arith)

-- At the cap the largest jitter gives 810 s where the limit of the source is 300 s.
beyond_the_cap : next_conn_backoff (200 * second) 9 ≡ 810 * second
unfolding next_conn_backoff doubled
beyond_the_cap = refl

sync_gives_up_example :
    is_over
      (run willing (machine (in_syncing 1 (15 * second)) (new_fsm fresh) false) (ticks 10 1)).at
    ≡ true
sync_gives_up_example =
    sync_gives_up willing 1 (15 * second)
      (machine (in_syncing 1 (15 * second)) (new_fsm fresh) false) refl

wind_down_returns_example :
    ((run willing (record (start fresh) { cancelled = true }) (wind_down 5)).at ≡ returned)
    × (is_connected (run willing (record (start fresh) { cancelled = true }) (wind_down 5)).fsm.log
        ≡ false)
    × (open_topics (run willing (record (start fresh) { cancelled = true }) (wind_down 5)).fsm.log
        ≡ [])
    × ((run willing (record (start fresh) { cancelled = true }) (wind_down 5)).fsm.snapshot.state
        ≡ disconnected)
wind_down_returns_example =
    wind_down_returns willing (record (start fresh) { cancelled = true }) refl
      (start-IsClosed fresh)
