-- ===== src/Cloud/Sync.antt =====
-- The synchronisation of the last values: every way into Steady gives each waiting app its verdict.
use arduino_cloud_connector.Common.{
  ℕ, ◌≡◌, String, Bool, true, false, some, List, [], ◌∷◌, arith, mem, leb, Bool-cases, inl, inr,
}
use arduino_cloud_connector.Command.{last_values_update}
use arduino_cloud_connector.Variables.{Variable, Registry, listening, apply_last_values}
use arduino_cloud_connector.Variables.Wellformed.{IsWellformed}
use arduino_cloud_connector.Variables.Verdict.{
  apply_last_values_listeners, apply_last_values_verdict,
}
use arduino_cloud_connector.Cloud.{Phase, Event, command_message, Env, Fsm, apply_properties}
use arduino_cloud_connector.Cloud.Backoff.{last_values_max_retries}
use arduino_cloud_connector.Cloud.States.{
  At, enter_reconnecting, enter_steady, in_syncing, returned, in_awaiting, in_steady,
  awaiting_event, awaiting_tick, steady_event, handle_steady_command, reassign, run_reconnecting,
  run_connecting, run_announcing, run_awaiting, run_syncing, run_steady, syncing_tick,
  syncing_event,
}
use arduino_cloud_connector.Cloud.Machine.{
  Input, go, done, tick, take, Machine, finish, on_go, on_done, on_tick, on_event, on_take,
  is_returned, run_input, step,
}

abbrev pub is_entering : At → Bool
is_entering enter_steady = true
is_entering _ = false

module _ {V : Type 0} where
  -- No listed subscription still waits for its first verdict.
  abbrev pub IsAnswered : Registry V → Type 0
  IsAnswered r = (k : String) (j : ℕ) → mem j (listening k r) ≡ true → (r.subs j).pending ≡ false

  apply_last_values-IsAnswered :
      (owner : ℕ → String) (now : ℕ) (vs : List (Variable V)) (r : Registry V)
      → IsWellformed owner r
      → IsAnswered (apply_last_values now vs r)
  apply_last_values-IsAnswered owner now vs r w k j listed =
      (apply_last_values_verdict owner now vs r k j w
        (rw (apply_last_values_listeners now vs r) at listed)).1

  syncing_event_answers :
      (env : Env V) (owner : ℕ → String) (now attempts timer : ℕ) (ev : Event) (f : Fsm V)
      → IsWellformed owner f.reg
      → is_entering (syncing_event env now attempts timer ev f).0 ≡ true
      → IsAnswered (syncing_event env now attempts timer ev f).1.reg
  unfolding syncing_event apply_properties
  syncing_event_answers env owner now attempts timer
        (command_message (some (last_values_update values))) f w e =
      apply_last_values-IsAnswered owner now _ f.reg w
  syncing_event_answers env owner now attempts timer ev f w e = cc

  syncing_tick_stays :
      (env : Env V) (now attempts : ℕ) (f : Fsm V)
      → leb last_values_max_retries attempts ≡ false
      → is_entering (syncing_tick env now attempts f).0 ≡ false
  unfolding syncing_tick
  syncing_tick_stays env now attempts f more = ground arith

  syncing_tick_answers :
      (env : Env V) (owner : ℕ → String) (now attempts : ℕ) (f : Fsm V)
      → IsWellformed owner f.reg
      → is_entering (syncing_tick env now attempts f).0 ≡ true
      → IsAnswered (syncing_tick env now attempts f).1.reg
  unfolding syncing_tick
  syncing_tick_answers env owner now attempts f w e =
      elim (Bool-cases (leb last_values_max_retries attempts)) [
        | inl over ↦ rw (over, syncing_tick) (apply_last_values-IsAnswered owner now [] f.reg w)
        | inr more ↦ λ k j listed. cc (syncing_tick_stays env now attempts f more)
      ]

  -- A pair of a place and a state that enters Steady only with every subscription answered.
  abbrev Answers : At × Fsm V → Type 0
  Answers p = is_entering p.0 ≡ true → IsAnswered p.1.reg

  finish-Answers :
      (env : Env V) (at : At) (f : Fsm V) → Answers (at, f) → Answers (finish env (at, f))
  finish-Answers env returned f a = λ e. cc
  finish-Answers env at f a = a

  on_go-Answers :
      (env : Env V) (seed : ℕ) (cancelled : Bool) (at : At) (f : Fsm V)
      → is_entering at ≡ false
      → is_entering (on_go env seed cancelled at f).0 ≡ false
  unfolding on_go run_reconnecting run_connecting run_announcing run_awaiting run_syncing run_steady
  on_go-Answers env seed cancelled enter_reconnecting f out = ground arith
  on_go-Answers env seed cancelled at f out = ground arith

  awaiting_event_out :
      (env : Env V) (delay max_delay : ℕ) (phase : Phase) (ev : Event) (f : Fsm V)
      → is_entering (awaiting_event env delay max_delay phase ev f).0 ≡ false
  unfolding awaiting_event
  awaiting_event_out env delay max_delay phase ev f = ground arith

  steady_event_out :
      (env : Env V) (now : ℕ) (ev : Event) (f : Fsm V)
      → is_entering (steady_event env now ev f).0 ≡ false
  unfolding steady_event handle_steady_command reassign
  steady_event_out env now ev f = ground arith

  on_tick-Answers :
      (env : Env V) (owner : ℕ → String) (now : ℕ) (at : At) (f : Fsm V)
      → is_entering at ≡ false
      → IsWellformed owner f.reg
      → Answers (on_tick env now at f)
  unfolding on_tick awaiting_tick
  on_tick-Answers env owner now (in_syncing attempts timer) f out w =
      syncing_tick_answers env owner now attempts f w
  on_tick-Answers env owner now (in_awaiting delay max_delay phase) f out w =
      λ e k j l. ground arith
  on_tick-Answers env owner now at f out w = λ e k j l. cc

  on_take-Answers :
      (env : Env V) (owner : ℕ → String) (now : ℕ) (at : At) (evs : List Event) (f : Fsm V)
      → is_entering at ≡ false
      → IsWellformed owner f.reg
      → Answers (on_take env now at evs f)
  unfolding on_take on_event
  on_take-Answers env owner now at [] f out w = λ e k j l. cc
  on_take-Answers env owner now (in_syncing attempts timer) (ev ∷ evs) f out w =
      syncing_event_answers env owner now attempts timer ev (record f { events = evs }) w
  on_take-Answers env owner now (in_awaiting delay max_delay phase) (ev ∷ evs) f out w =
      λ e k j l. cc (awaiting_event_out env delay max_delay phase ev (record f { events = evs }))
  on_take-Answers env owner now in_steady (ev ∷ evs) f out w =
      λ e k j l. cc (steady_event_out env now ev (record f { events = evs }))
  on_take-Answers env owner now at (ev ∷ evs) f out w = λ e k j l. cc

  run_input-Answers :
      (env : Env V) (owner : ℕ → String) (i : Input V) (m : Machine V)
      → is_entering m.at ≡ false
      → IsWellformed owner m.fsm.reg
      → Answers ((run_input env i m).at, (run_input env i m).fsm)
  unfolding on_done
  run_input-Answers env owner (go seed) m out w =
      finish-Answers env _ _ (λ e k j l. cc (on_go-Answers env seed m.cancelled m.at m.fsm out))
  run_input-Answers env owner done m out w = finish-Answers env _ _ (λ e k j l. ground arith)
  run_input-Answers env owner (tick now) m out w =
      finish-Answers env _ _ (on_tick-Answers env owner now m.at m.fsm out w)
  run_input-Answers env owner (take now) m out w =
      finish-Answers env _ _ (on_take-Answers env owner now m.at m.fsm.events m.fsm out w)
  run_input-Answers env owner i m out w = λ e k j l. cc

  -- Every step by which the cloud FSM, on a well-formed registry, enters Steady leaves no listed
  -- subscription of the registry pending, whether a LastValues payload was applied, could not be
  -- decoded, or never came.
  pub step_enters-IsAnswered :
      (env : Env V) (owner : ℕ → String) (m : Machine V) (i : Input V)
      → IsWellformed owner m.fsm.reg
      → is_entering m.at ≡ false
      → is_entering (step env m i).at ≡ true
      → IsAnswered (step env m i).fsm.reg
  unfolding step
  step_enters-IsAnswered env owner m i w out = elim (Bool-cases (is_returned m.at)) [
    | inl over ↦ rw over (λ e k j l. cc)
    | inr live ↦ rw live (run_input-Answers env owner i m out w)
  ]
