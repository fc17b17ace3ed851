-- ===== src/Cloud/Shutdown.antt =====
-- Cancelling the context: Run returns after a few steps, disconnected.
use arduino_cloud_connector.Common.{
  ℕ, zero, suc, ◌≤◌, ◌≡◌, refl, ap, true, false, List, [], ◌∷◌, arith, if◌then◌else◌, Bool-cases,
  inl, inr,
}
use arduino_cloud_connector.Variables.{Registry}
use arduino_cloud_connector.Cloud.{disconnected, Env, Fsm, new_fsm, shutdown, transition}
use arduino_cloud_connector.Cloud.Protocol.{is_connected, open_topics}
use arduino_cloud_connector.Cloud.States.{
  At, enter_reconnecting, enter_connecting, enter_announcing, enter_awaiting, enter_syncing,
  enter_steady, in_backoff, in_awaiting, in_syncing, in_steady, returned, run_reconnecting,
  run_connecting, run_announcing, run_awaiting, run_syncing, run_steady,
}
use arduino_cloud_connector.Cloud.Machine.{
  Input, go, done, tick, take, arrive, cancel, change, Machine, start, finish, on_go, on_done,
  is_select, is_returned, run_input, step, run,
}

-- The state functions that still run before a select is reached, once the context is cancelled.
abbrev pub rank : At → ℕ
rank returned = 0
rank (in_backoff delay) = 1
rank (in_awaiting delay max_delay phase) = 1
rank (in_syncing attempts timer) = 1
rank in_steady = 1
rank enter_reconnecting = 2
rank enter_steady = 2
rank enter_syncing = 3
rank enter_awaiting = 3
rank enter_announcing = 4
rank enter_connecting = 5

rank-le : (at : At) → rank at ≤ 5
rank-le at = ground arith

module _ {V : Type 0} where
  -- The goroutine alone: it runs, and its select finds the cancelled context.
  abbrev pub wind_down : ℕ → List (Input V)
  wind_down zero = []
  wind_down (suc n) = done ∷ go 0 ∷ wind_down n

  step_cancelled :
      (env : Env V) (m : Machine V) (i : Input V)
      → m.cancelled ≡ true
      → (step env m i).cancelled ≡ true
  unfolding step
  step_cancelled env m i h = ground arith

  at-done :
      (env : Env V) (m : Machine V)
      → m.cancelled ≡ true
      → (step env m done).at ≡ (if is_select m.at then returned else m.at)
  unfolding step on_done
  at-done env m h = ground arith

  -- A state function that runs with the context cancelled comes nearer to its end.
  rank-on_go :
      (env : Env V) (k : ℕ) (at : At) (f : Fsm V)
      → is_select at ≡ false
      → rank at ≤ suc k
      → rank (finish env (on_go env 0 true at f)).0 ≤ k
  unfolding on_go run_reconnecting run_connecting run_announcing run_awaiting run_syncing run_steady
  rank-on_go env k enter_reconnecting f out r = ground arith
  rank-on_go env k enter_connecting f out r = ground arith
  rank-on_go env k enter_announcing f out r = ground arith
  rank-on_go env k enter_awaiting f out r = ground arith
  rank-on_go env k enter_syncing f out r = ground arith
  rank-on_go env k enter_steady f out r = ground arith
  rank-on_go env k returned f out r = ground arith
  rank-on_go env k at f out r = cc

  rank-go :
      (env : Env V) (k : ℕ) (m : Machine V)
      → m.cancelled ≡ true
      → is_select m.at ≡ false
      → rank m.at ≤ suc k
      → rank (step env m (go 0)).at ≤ k
  unfolding step
  rank-go env k m h out r = elim (Bool-cases (is_returned m.at)) [
    | inl over ↦ rw over (ground arith)
    | inr live ↦ rw (live, h) (rank-on_go env k m.at m.fsm out r)
  ]

  rank_round :
      (env : Env V) (k : ℕ) (m : Machine V)
      → m.cancelled ≡ true
      → rank m.at ≤ suc k
      → rank (step env (step env m done) (go 0)).at ≤ k
  rank_round env k m h r =
      rank-go env k (step env m done) (step_cancelled env m done h)
        (ground (arith, at-done env m h)) (ground (arith, at-done env m h))

  rank-wind_down :
      (env : Env V) (n : ℕ) (m : Machine V)
      → m.cancelled ≡ true
      → rank m.at ≤ n
      → rank (run env m (wind_down n)).at ≤ 0
  unfolding run
  rank-wind_down env zero m h r = r
  rank-wind_down env (suc n) m h r =
      rank-wind_down env n (step env (step env m done) (go 0))
        (step_cancelled env (step env m done) (go 0) (step_cancelled env m done h))
        (rank_round env n m h r)

  pub record IsClosed (at : At) (f : Fsm V) : Type 0 where
    pub unlinked : is_returned at ≡ true → is_connected f.log ≡ false
    pub no_topics : is_returned at ≡ true → open_topics f.log ≡ []
    pub said : is_returned at ≡ true → f.snapshot.state ≡ disconnected

  finish-IsClosed :
      (env : Env V) (at : At) (f : Fsm V) → IsClosed (finish env (at, f)).0 (finish env (at, f)).1
  unfolding shutdown transition
  finish-IsClosed env returned f = ground arith
  finish-IsClosed env at f = ground arith

  run_input-IsClosed :
      (env : Env V) (i : Input V) (m : Machine V)
      → is_returned m.at ≡ false
      → IsClosed (run_input env i m).at (run_input env i m).fsm
  run_input-IsClosed env (go seed) m live = finish-IsClosed env _ _
  run_input-IsClosed env done m live = finish-IsClosed env _ _
  run_input-IsClosed env (tick now) m live = finish-IsClosed env _ _
  run_input-IsClosed env (take now) m live = finish-IsClosed env _ _
  run_input-IsClosed env (arrive ev) m live = record {
    unlinked = λ e. cc;
    no_topics = λ e. cc;
    said = λ e. cc;
  }
  run_input-IsClosed env cancel m live = record {
    unlinked = λ e. cc;
    no_topics = λ e. cc;
    said = λ e. cc;
  }
  run_input-IsClosed env (change reg) m live = record {
    unlinked = λ e. cc;
    no_topics = λ e. cc;
    said = λ e. cc;
  }

  step-IsClosed :
      (env : Env V) (m : Machine V) (i : Input V)
      → IsClosed m.at m.fsm
      → IsClosed (step env m i).at (step env m i).fsm
  unfolding step
  step-IsClosed env m i c = elim (Bool-cases (is_returned m.at)) [
    | inl over ↦ rw over c
    | inr live ↦ rw live (run_input-IsClosed env i m live)
  ]

  pub run-IsClosed :
      (env : Env V) (m : Machine V) (is : List (Input V))
      → IsClosed m.at m.fsm
      → IsClosed (run env m is).at (run env m is).fsm
  unfolding run
  run-IsClosed env m [] c = c
  run-IsClosed env m (i ∷ is) c = run-IsClosed env (step env m i) is (step-IsClosed env m i c)

  pub start-IsClosed : (reg : Registry V) → IsClosed (start reg).at (start reg).fsm
  unfolding new_fsm
  start-IsClosed reg = record { unlinked = λ e. refl; no_topics = λ e. refl; said = λ e. refl }

  -- From any point at which an FSM that has not returned otherwise than closed is cancelled, five
  -- rounds in which the goroutine's select takes the cancelled context and the goroutine runs make
  -- Run return, whatever the client answers; the client is then disconnected, no property topic is
  -- open and the snapshot says Disconnected.
  pub wind_down_returns :
      (env : Env V) (m : Machine V)
      → m.cancelled ≡ true
      → IsClosed m.at m.fsm
      → ((run env m (wind_down 5)).at ≡ returned)
        × (is_connected (run env m (wind_down 5)).fsm.log ≡ false)
        × (open_topics (run env m (wind_down 5)).fsm.log ≡ [])
        × ((run env m (wind_down 5)).fsm.snapshot.state ≡ disconnected)
  wind_down_returns env m h c =
      let back : (run env m (wind_down 5)).at ≡ returned =
        ground (arith, rank-wind_down env 5 m h (rank-le m.at)) in
      let closed = run-IsClosed env m (wind_down 5) c in
      (
        back,
        closed.unlinked (ap is_returned back),
        closed.no_topics (ap is_returned back),
        closed.said (ap is_returned back),
      )
