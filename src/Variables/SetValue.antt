-- ===== src/Variables/SetValue.antt =====
-- What SetValue stores and whom it tells, and what a series of writes delivers.
use arduino_cloud_connector.Common.{
  ℕ, ◌≡◌, refl, String, Bool, true, false, not, ◌&&◌, Option, some, List, [], ◌∷◌, ◌++◌, arith,
  str_eq, eq_iff, if◌then◌else◌, mem, for_each_at, select, map,
}
use arduino_cloud_connector.Variables.{
  UpdateEvent, Registry, listening, get, set_value, default_time, is_excluded, update_event,
  enqueue,
}
use arduino_cloud_connector.Variables.Storage.{lookup-store_value, store_value-rest}
use arduino_cloud_connector.Variables.Wellformed.{IsWellformed, set_value-IsWellformed}
use mathlib.Core.List.{append_assoc, append-nil}

module _ {V : Type 0} where
  abbrev pub is_told : String → String → ℕ → Registry V → Bool
  is_told name origin j r = mem j (listening name r) && not (is_excluded origin (r.subs j))

  set_value_subs :
      (owner : ℕ → String) (now : ℕ) (name : String) (value : Option V) (ts : ℕ) (origin : String)
      (r : Registry V) (j : ℕ)
      → IsWellformed owner r
      → (set_value now name value ts origin r).subs j ≡ (
          if is_told name origin j r
          then enqueue (update_event name value (default_time ts now)) (r.subs j)
          else r.subs j)
  unfolding set_value
  set_value_subs owner now name value ts origin r j w =
      let rest = store_value-rest name value (default_time ts now) r in
      rw (rest.0, rest.1, for_each_at _ (listening name r) r.subs j (w.listed.distinct name))
        (ground arith)

  pub set_value_listeners :
      (now : ℕ) (name : String) (value : Option V) (ts : ℕ) (origin : String) (r : Registry V)
      → (set_value now name value ts origin r).listeners ≡ r.listeners
  unfolding set_value
  set_value_listeners now name value ts origin r =
      (store_value-rest name value (default_time ts now) r).0

  pub get-set_value :
      (owner : ℕ → String) (now : ℕ) (name : String) (value : Option V) (ts : ℕ) (origin : String)
      (r : Registry V) (k : String)
      → IsWellformed owner r
      → get k (set_value now name value ts origin r) ≡ (
          if str_eq name k
          then some (record { name = name; value = value; timestamp = default_time ts now })
          else get k r)
  unfolding get set_value
  get-set_value owner now name value ts origin r k w =
      lookup-store_value name k value (default_time ts now) r w.named

-- One call of SetValue, with the time at which it runs.
pub record Write (V : Type 0) : Type 0 where
  pub now : ℕ
  pub name : String
  pub value : Option V
  pub ts : ℕ
  pub origin : String

module _ {V : Type 0} where
  abbrev pub write : Registry V → Write V → Registry V
  write r w = set_value w.now w.name w.value w.ts w.origin r

  pub run_writes : List (Write V) → Registry V → Registry V
  run_writes [] r = r
  run_writes (w ∷ ws) r = run_writes ws (write r w)

  abbrev pub event_of : Write V → UpdateEvent V
  event_of w = update_event w.name w.value (default_time w.ts w.now)

  -- A write reaches a subscription of `client` to `name` if it is to that name and not the client's own.
  abbrev pub reaches : String → String → Write V → Bool
  reaches name client w =
      str_eq w.name name && not (not (str_eq w.origin "") && str_eq client w.origin)

  step_queue :
      (owner : ℕ → String) (w : Write V) (r : Registry V) (name : String) (j : ℕ)
      → mem j (listening name r) ≡ true
      → IsWellformed owner r
      → ((write r w).subs j).queue ≡ (
          if reaches name (r.subs j).client_id w
          then (r.subs j).queue ++ event_of w ∷ []
          else (r.subs j).queue)
  unfolding enqueue is_excluded
  step_queue owner w r name j listed wf =
      rw (set_value_subs owner w.now w.name w.value w.ts w.origin r j wf)
        (ground (arith, eq_iff w.name name, wf.listed.owned name j, wf.listed.owned w.name j))

  step_client :
      (owner : ℕ → String) (w : Write V) (r : Registry V) (j : ℕ)
      → IsWellformed owner r
      → ((write r w).subs j).client_id ≡ (r.subs j).client_id
  unfolding enqueue
  step_client owner w r j wf =
      rw (set_value_subs owner w.now w.name w.value w.ts w.origin r j wf) (ground arith)

  queue_step :
      (b : Bool) (q : List (UpdateEvent V)) (w : Write V) (ws : List (Write V))
      → (if b then q ++ event_of w ∷ [] else q) ++ map event_of ws
        ≡ q ++ map event_of (if b then w ∷ ws else ws)
  queue_step true q w ws = append_assoc q _ _
  queue_step false q w ws = refl

  -- A series of SetValue calls appends to the queue of a listed subscription exactly the updates of
  -- its variable that are not the subscriber's own, in the order of the calls, so two subscribers
  -- of one variable see the writes that reach both in one order.
  pub run_writes_queue :
      (owner : ℕ → String) (ws : List (Write V)) (r : Registry V) (name : String) (j : ℕ)
      → mem j (listening name r) ≡ true
      → IsWellformed owner r
      → ((run_writes ws r).subs j).queue
        ≡ (r.subs j).queue ++ map event_of (select (reaches name (r.subs j).client_id) ws)
  unfolding run_writes
  run_writes_queue owner [] r name j listed wf = rw append-nil
  run_writes_queue owner (w ∷ ws) r name j listed wf =
      let ih =
        run_writes_queue owner ws (write r w) name j
          (rw (set_value_listeners w.now w.name w.value w.ts w.origin r) listed)
          (set_value-IsWellformed owner w.now w.name w.value w.ts w.origin r wf) in
      rw (ih, step_queue owner w r name j listed wf, step_client owner w r j wf)
        (queue_step (reaches name (r.subs j).client_id w) (r.subs j).queue w _)

  -- A subscription that no list holds is never touched.
  pub run_writes_stranger :
      (owner : ℕ → String) (ws : List (Write V)) (r : Registry V) (j : ℕ)
      → ((k : String) → mem j (listening k r) ≡ false)
      → IsWellformed owner r
      → (run_writes ws r).subs j ≡ r.subs j
  unfolding run_writes
  run_writes_stranger owner [] r j out wf = refl
  run_writes_stranger owner (w ∷ ws) r j out wf =
      let ih =
        run_writes_stranger owner ws (write r w) j
          (λ k. rw (set_value_listeners w.now w.name w.value w.ts w.origin r) (out k))
          (set_value-IsWellformed owner w.now w.name w.value w.ts w.origin r wf) in
      rw (ih, set_value_subs owner w.now w.name w.value w.ts w.origin r j wf)
        (ground (arith, out w.name))

  -- On a well-formed registry SetValue stores the value under its name with the given time, or with
  -- the present where that is zero, and leaves every other variable as it was; it enqueues the
  -- update once to each subscription listed under the name, but for those of the originating
  -- client, and changes no other subscription.
  pub set_value_lem :
      (owner : ℕ → String) (now : ℕ) (name : String) (value : Option V) (ts : ℕ) (origin : String)
      (r : Registry V)
      → IsWellformed owner r
      → ((k : String)
          → get k (set_value now name value ts origin r) ≡ (
              if str_eq name k
              then some (record { name = name; value = value; timestamp = default_time ts now })
              else get k r))
        × ((j : ℕ)
            → (set_value now name value ts origin r).subs j ≡ (
                if is_told name origin j r
                then enqueue (update_event name value (default_time ts now)) (r.subs j)
                else r.subs j))
  set_value_lem owner now name value ts origin r w = (
    λ k. get-set_value owner now name value ts origin r k w,
    λ j. set_value_subs owner now name value ts origin r j w,
  )
