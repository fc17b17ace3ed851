-- ===== src/Cloud/Retry.antt =====
-- The retries of the cloud FSM: how the delays grow, and that the synchronisation gives up.
use arduino_cloud_connector.Common.{
  ℕ, zero, suc, ◌+◌, ◌-◌, ◌*◌, ◌/◌, ◌^◌, ◌≤◌, ◌<◌, ◌≡◌, refl, ap, ◌⊎◌, inl, inr, ◌∙◌, Bool, true,
  false, List, [], ◌∷◌, arith, ltb, if◌then◌else◌,
}
use native.Mathlib.Nat.{pow-suc, one-le-pow, mul-le-mul_left}
use arduino_cloud_connector.Command.{thing_begin}
use arduino_cloud_connector.Cloud.{Phase, Env, Fsm, Log, publish_command}
use arduino_cloud_connector.Cloud.Backoff.{
  second, conn_backoff_max, doubled, next_conn_backoff, next_thing_id_backoff,
}
use arduino_cloud_connector.Cloud.States.{
  At, enter_reconnecting, enter_steady, in_awaiting, in_syncing, awaiting_tick, syncing_tick,
}
use arduino_cloud_connector.Cloud.Machine.{Input, tick, Machine, on_tick, step, run}

doubled-le : (current : ℕ) → doubled current ≤ conn_backoff_max
unfolding doubled
doubled-le current = ground arith

doubled-ge : (current : ℕ) → second ≤ current → 2 * second ≤ doubled current
unfolding doubled
doubled-ge current h = ground arith

jitter-le : (next seed : ℕ) → seed < 10 → next * (seed * 2 - 1) ≤ next * 17
jitter-le next seed h = mul-le-mul_left next (omega arith)

jitter-ge : (next seed : ℕ) → 2 ≤ seed → next * 3 ≤ next * (seed * 2 - 1)
jitter-ge next seed h = mul-le-mul_left next (omega arith)

-- After a failed connection the next delay is at least the doubled and capped delay less ten per
-- cent, and at most 810 seconds, for every random number below 10.
pub next_conn_backoff_bounds :
    (current seed : ℕ)
    → seed < 10
    → (doubled current - doubled current / 10 ≤ next_conn_backoff current seed)
      × (next_conn_backoff current seed ≤ 810 * second)
unfolding next_conn_backoff
next_conn_backoff_bounds current seed h =
    ground (arith, jitter-le (doubled current) seed h, doubled-le current)

-- For every random number from 2 on and every delay of a second or more, the next connection delay
-- exceeds the doubled and capped delay by more than ten per cent.
pub next_conn_backoff_overshoots :
    (current seed : ℕ)
    → 2 ≤ seed
    → second ≤ current
    → doubled current + doubled current / 10 < next_conn_backoff current seed
unfolding next_conn_backoff
next_conn_backoff_overshoots current seed h k =
    ground (arith, jitter-ge (doubled current) seed h, doubled-ge current k)

-- Some retries in a row.
abbrev pub after_retries : ℕ → ℕ → ℕ → ℕ
after_retries zero delay max_delay = delay
after_retries (suc n) delay max_delay =
    after_retries n (next_thing_id_backoff delay max_delay) max_delay

le-mul : (a p : ℕ) → 1 ≤ p → a ≤ a * p
le-mul a p h = grind arith

capped_step :
    (delay max_delay p : ℕ)
    → delay ≤ max_delay
    → 1 ≤ p
    → (if ltb max_delay (next_thing_id_backoff delay max_delay * p)
        then max_delay
        else next_thing_id_backoff delay max_delay * p)
      ≡ (if ltb max_delay (delay * (p * 2)) then max_delay else delay * (p * 2))
unfolding next_thing_id_backoff
capped_step delay max_delay p h k =
    let regroup : delay * 2 * p ≡ delay * (p * 2) = omega arith in
    ground (arith, regroup, le-mul (delay * 2) p k, le-mul max_delay p k)

after_retries_lem :
    (n delay max_delay : ℕ)
    → delay ≤ max_delay
    → after_retries n delay max_delay
      ≡ (if ltb max_delay (delay * 2 ^ n) then max_delay else delay * 2 ^ n)
unfolding next_thing_id_backoff
after_retries_lem zero delay max_delay h = ground arith
after_retries_lem (suc n) delay max_delay h =
    after_retries_lem n (next_thing_id_backoff delay max_delay) max_delay (ground arith)
    ∙ (simp pow-suc (capped_step delay max_delay (2 ^ n) h (one-le-pow n 2 (omega arith))))

abbrev pub is_syncing : At → Bool
is_syncing (in_syncing attempts timer) = true
is_syncing _ = false

-- Where the synchronisation goes when it is over.
abbrev pub is_over : At → Bool
is_over enter_steady = true
is_over enter_reconnecting = true
is_over _ = false

module _ {V : Type 0} where
  -- The timer fires some times, and nothing else happens.
  abbrev pub ticks : ℕ → ℕ → List (Input V)
  ticks zero now = []
  ticks (suc n) now = tick now ∷ ticks n now

  abbrev pub machine : At → Fsm V → Bool → Machine V
  machine at f cancelled = record { at = at; fsm = f; cancelled = cancelled }

  step_awaiting :
      (env : Env V) (now delay max_delay : ℕ) (phase : Phase) (f : Fsm V) (cancelled : Bool)
      → env.fails f.log (publish_command env.device_id (thing_begin "")) ≡ false
      → step env (machine (in_awaiting delay max_delay phase) f cancelled) (tick now)
        ≡ machine
            (in_awaiting (next_thing_id_backoff delay max_delay) max_delay phase)
            (record f { log = (publish_command env.device_id (thing_begin ""), false) ∷ f.log })
            cancelled
  unfolding step on_tick awaiting_tick
  step_awaiting env now delay max_delay phase f cancelled accepted = ground arith

  run_awaiting_ticks :
      (env : Env V) (now n delay max_delay : ℕ) (phase : Phase) (f : Fsm V) (cancelled : Bool)
      → ((l : Log) → env.fails l (publish_command env.device_id (thing_begin "")) ≡ false)
      → (run env (machine (in_awaiting delay max_delay phase) f cancelled) (ticks n now)).at
        ≡ in_awaiting (after_retries n delay max_delay) max_delay phase
  unfolding run
  run_awaiting_ticks env now zero delay max_delay phase f cancelled accepted = refl
  run_awaiting_ticks env now (suc n) delay max_delay phase f cancelled accepted =
      rw (step_awaiting env now delay max_delay phase f cancelled (accepted f.log), run)
        (run_awaiting_ticks env now n (next_thing_id_backoff delay max_delay) max_delay phase
          (record f { log = (publish_command env.device_id (thing_begin ""), false) ∷ f.log })
          cancelled accepted)

  -- While the broker accepts Thing.begin and the cloud stays silent, the n-th retry of the thing id
  -- back-off waits for the first delay times 2^n, or for the phase's maximum where that is less,
  -- and the FSM stays in its phase.
  pub awaiting_delay :
      (env : Env V) (now n delay max_delay : ℕ) (phase : Phase) (f : Fsm V) (cancelled : Bool)
      → delay ≤ max_delay
      → ((l : Log) → env.fails l (publish_command env.device_id (thing_begin "")) ≡ false)
      → (run env (machine (in_awaiting delay max_delay phase) f cancelled) (ticks n now)).at
        ≡ in_awaiting
            (if ltb max_delay (delay * 2 ^ n) then max_delay else delay * 2 ^ n)
            max_delay
            phase
  awaiting_delay env now n delay max_delay phase f cancelled h accepted =
      run_awaiting_ticks env now n delay max_delay phase f cancelled accepted
      ∙ ap (λ d. in_awaiting d max_delay phase) (after_retries_lem n delay max_delay h)

  step_over :
      (env : Env V) (now : ℕ) (at : At) (f : Fsm V) (cancelled : Bool)
      → is_over at ≡ true
      → (step env (machine at f cancelled) (tick now)).at ≡ at
  unfolding step on_tick
  step_over env now enter_steady f cancelled h = refl
  step_over env now enter_reconnecting f cancelled h = refl
  step_over env now at f cancelled h = cc

  -- A tick of the synchronisation ends it or counts one attempt more.
  step_syncing :
      (env : Env V) (now attempts timer : ℕ) (m : Machine V)
      → m.at ≡ in_syncing attempts timer
      → (is_over (step env m (tick now)).at ≡ true)
        ⊎ ((step env m (tick now)).at ≡ in_syncing (attempts + 1) env.timers.last_values_timeout)
          × (attempts < 10)
  unfolding step on_tick syncing_tick
  step_syncing env now attempts timer m e = ground arith

  sync_over :
      (env : Env V) (now n : ℕ) (m : Machine V)
      → is_over m.at ≡ true
      → is_over (run env m (ticks n now)).at ≡ true
  unfolding run
  sync_over env now zero m h = h
  sync_over env now (suc n) m h =
      sync_over env now n (step env m (tick now))
        (rw (step_over env now m.at m.fsm m.cancelled h) h)

  run_syncing_ticks :
      (env : Env V) (now n attempts timer : ℕ) (m : Machine V)
      → m.at ≡ in_syncing attempts timer
      → 10 ≤ attempts + n
      → is_over (run env m (ticks (suc n) now)).at ≡ true
  unfolding run
  run_syncing_ticks env now zero attempts timer m e h =
      elim (step_syncing env now attempts timer m e) [
        | inl over ↦ over
        | inr (e', few) ↦ absurd (omega arith)
      ]
  run_syncing_ticks env now (suc n) attempts timer m e h =
      elim (step_syncing env now attempts timer m e) [
        | inl over ↦ sync_over env now (suc n) (step env m (tick now)) over
        | inr (e', few) ↦
            run_syncing_ticks env now n (attempts + 1) env.timers.last_values_timeout
              (step env m (tick now)) e' (omega arith)
      ]

  -- Whatever the client answers, ten timeouts in a row after the first LastValues.begin end the
  -- synchronisation: the FSM is on its way to Steady or to Reconnecting.
  pub sync_gives_up :
      (env : Env V) (now timer : ℕ) (m : Machine V)
      → m.at ≡ in_syncing 1 timer
      → is_over (run env m (ticks 10 now)).at ≡ true
  sync_gives_up env now timer m e = run_syncing_ticks env now 9 1 timer m e (omega arith)
