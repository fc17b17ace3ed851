-- ===== src/Daemon/Invariant.antt =====
-- The daemon's machine: what holds in every state that it reaches.
use arduino_cloud_connector.Common.{
  ◌≡◌, refl, Bool, true, false, Option, none, some, List, [], ◌∷◌, arith, String,
}
use arduino_cloud_connector.Provisioning as Provisioning
use arduino_cloud_connector.Provisioning.{
  Env, Calls, Outcome, succeeded, still_trying, failed, Service, run_attempt, begin_provisioning,
}
use arduino_cloud_connector.Keystore.Disk as Disk
use arduino_cloud_connector.Daemon.{
  Daemon, State, check_internet, provisioning, run, Place, checking, attempting, parked, running,
  returned, Action, start_cloud, stop_cloud, prelude, attempt, new, transition, run_check_internet,
  run_provisioning, attach_cloud, detach_cloud, run_run, pick_state, pick_post_internet_state,
  begin_reprovision, proceeds, reply, reprovision_at, reprovision, attempted, run_attempt_now,
  Input, probe, command, attempt_done, cancelled, on_probe, on_attempt, on_cancelled, step, steps,
}

-- Whether a Cloud FSM runs after the calls of a log, or `none` where the calls break the rule: one
-- FSM at a time, and no prelude and no attempt while one runs.
unfoldable pub cloud_runs : List Action → Option Bool
cloud_runs [] = some false
cloud_runs (start_cloud ∷ log) = elim (cloud_runs log) [ some false ↦ some true | _ ↦ none ]
cloud_runs (stop_cloud ∷ log) = elim (cloud_runs log) [ some true ↦ some false | _ ↦ none ]
cloud_runs (prelude ∷ log) = elim (cloud_runs log) [ some false ↦ some false | _ ↦ none ]
cloud_runs (attempt ∷ log) = elim (cloud_runs log) [ some false ↦ some false | _ ↦ none ]

-- The state and the Cloud FSM that go with a place.
abbrev pub At : Place → State → Bool → Type 0
At checking s attached = (s ≡ check_internet) × (attached ≡ false)
At attempting s attached = (s ≡ provisioning) × (attached ≡ false)
At parked s attached = (s ≡ provisioning) × (attached ≡ false)
At running s attached = (s ≡ run) × (attached ≡ true)
At returned s attached = attached ≡ false

pub record IsSound (d : Daemon) : Type 0 where
  pub at : At d.place d.state d.attached
  pub ruled : cloud_runs d.log ≡ some d.attached

new-IsSound : (prov : Service) → IsSound (new prov)
unfolding new cloud_runs
new-IsSound prov = record { at = (refl, refl); ruled = refl }

-- A machine with no Cloud FSM attached, as the state functions are entered.
record IsDetached (d : Daemon) : Type 0 where
  off : d.attached ≡ false
  ruled : cloud_runs d.log ≡ some false

run_provisioning-IsSound :
    (now : Bool) (d : Daemon) → IsDetached d → IsSound (run_provisioning now d)
unfolding run_provisioning transition
run_provisioning-IsSound true d w = record { at = (refl, w.off); ruled = ground arith }
run_provisioning-IsSound false d w = record { at = (refl, w.off); ruled = ground arith }

run_run-IsSound : (new_failed : Bool) (d : Daemon) → IsDetached d → IsSound (run_run new_failed d)
unfolding run_run run_check_internet attach_cloud transition cloud_runs
run_run-IsSound true d w = record { at = (refl, w.off); ruled = ground arith }
run_run-IsSound false d w = record { at = (refl, refl); ruled = ground arith }

IsDetached-off : (d : Daemon) → IsSound d → d.attached ≡ false → IsDetached d
IsDetached-off d w o = record { off = o; ruled = ground (arith, w.ruled) }

pick_state-IsSound :
    (s : Provisioning.State) (new_failed : Bool) (d : Daemon)
    → IsDetached d
    → IsSound (pick_state s new_failed d)
pick_state-IsSound Provisioning.provisioning new_failed d w = run_provisioning-IsSound true d w
pick_state-IsSound Provisioning.provisioned new_failed d w = run_run-IsSound new_failed d w
pick_state-IsSound Provisioning.unprovisioned new_failed d w = run_provisioning-IsSound false d w
pick_state-IsSound Provisioning.error new_failed d w = run_provisioning-IsSound false d w

detach_cloud-IsDetached : (d : Daemon) → cloud_runs d.log ≡ some true → IsDetached (detach_cloud d)
unfolding detach_cloud cloud_runs
detach_cloud-IsDetached d r = record { off = refl; ruled = ground arith }

begin_reprovision-IsDetached :
    (env : Env) (organization_id : String) (d : Daemon)
    → IsDetached d
    → IsDetached (begin_reprovision env organization_id d).1
unfolding begin_reprovision cloud_runs
begin_reprovision-IsDetached env organization_id d w = record {
  off = w.off;
  ruled = ground (arith, w.ruled);
}

proceeds-IsSound :
    (r : Option Disk.Error × Daemon) → IsDetached r.1 → IsSound (reply (proceeds r)).1
proceeds-IsSound (none, d) w = run_provisioning-IsSound true d w
proceeds-IsSound (some e, d) w = run_provisioning-IsSound false d w

reprovision_at-IsSound :
    (place : Place) (env : Env) (organization_id : String) (d : Daemon)
    → d.place ≡ place
    → IsSound d
    → IsSound (reprovision_at place env organization_id d).1
reprovision_at-IsSound parked env organization_id d p w =
    proceeds-IsSound (begin_reprovision env organization_id d) (
      begin_reprovision-IsDetached env organization_id d
        (IsDetached-off d w (ground (arith, rw p at (w.at)))))
reprovision_at-IsSound running env organization_id d p w =
    proceeds-IsSound (begin_reprovision env organization_id (detach_cloud d)) (
      begin_reprovision-IsDetached env organization_id (detach_cloud d)
        (detach_cloud-IsDetached d (ground (arith, w.ruled, rw p at (w.at)))))
reprovision_at-IsSound checking env organization_id d p w = w
reprovision_at-IsSound attempting env organization_id d p w = w
reprovision_at-IsSound returned env organization_id d p w = w

attempted-IsSound :
    (outcome : Outcome) (ctx_done new_failed : Bool) (before d : Daemon)
    → IsSound before
    → d.state ≡ provisioning
    → IsDetached d
    → IsSound (attempted outcome ctx_done new_failed before d)
attempted-IsSound succeeded ctx_done new_failed before d p s w = run_run-IsSound new_failed d w
attempted-IsSound still_trying ctx_done new_failed before d p s w = p
attempted-IsSound (failed e) true new_failed before d p s w = record {
  at = w.off;
  ruled = ground (arith, w.off, w.ruled);
}
attempted-IsSound (failed e) false new_failed before d p s w = record {
  at = (s, w.off);
  ruled = ground (arith, w.off, w.ruled);
}

run_attempt_now-IsSound :
    (env : Env) (calls : Calls) (ctx_done new_failed : Bool) (d : Daemon)
    → d.place ≡ attempting
    → IsSound d
    → IsSound (run_attempt_now env calls ctx_done new_failed d)
unfolding run_attempt_now cloud_runs
run_attempt_now-IsSound env calls ctx_done new_failed d p w =
    let here = rw p at (w.at) in
    attempted-IsSound (run_attempt env calls d.prov).0 ctx_done new_failed d
      (record d { prov = (run_attempt env calls d.prov).1; log = attempt ∷ d.log }) w here.0
      (record { off = here.1; ruled = ground (arith, w.ruled, here.1) })

on_probe-IsSound :
    (place : Place) (env : Env) (reachable new_failed : Bool) (d : Daemon)
    → d.place ≡ place
    → IsSound d
    → IsSound (on_probe place env reachable new_failed d)
unfolding pick_post_internet_state
on_probe-IsSound checking env true new_failed d p w =
    pick_state-IsSound (Provisioning.state env.fs env.now d.prov) new_failed d
      (IsDetached-off d w (ground (arith, rw p at (w.at))))
on_probe-IsSound checking env false new_failed d p w = w
on_probe-IsSound attempting env reachable new_failed d p w = w
on_probe-IsSound parked env reachable new_failed d p w = w
on_probe-IsSound running env reachable new_failed d p w = w
on_probe-IsSound returned env reachable new_failed d p w = w

on_attempt-IsSound :
    (place : Place) (env : Env) (calls : Calls) (ctx_done new_failed : Bool) (d : Daemon)
    → d.place ≡ place
    → IsSound d
    → IsSound (on_attempt place env calls ctx_done new_failed d)
on_attempt-IsSound attempting env calls ctx_done new_failed d p w =
    run_attempt_now-IsSound env calls ctx_done new_failed d p w
on_attempt-IsSound checking env calls ctx_done new_failed d p w = w
on_attempt-IsSound parked env calls ctx_done new_failed d p w = w
on_attempt-IsSound running env calls ctx_done new_failed d p w = w
on_attempt-IsSound returned env calls ctx_done new_failed d p w = w

on_cancelled-IsSound :
    (place : Place) (d : Daemon) → d.place ≡ place → IsSound d → IsSound (on_cancelled place d)
unfolding detach_cloud cloud_runs
on_cancelled-IsSound running d p w = record {
  at = refl;
  ruled = ground (arith, w.ruled, rw p at (w.at));
}
on_cancelled-IsSound attempting d p w = w
on_cancelled-IsSound checking d p w = record {
  at = ground (arith, rw p at (w.at));
  ruled = ground (arith, w.ruled);
}
on_cancelled-IsSound parked d p w = record {
  at = ground (arith, rw p at (w.at));
  ruled = ground (arith, w.ruled);
}
on_cancelled-IsSound returned d p w = record {
  at = ground (arith, rw p at (w.at));
  ruled = ground (arith, w.ruled);
}

step-IsSound : (i : Input) (d : Daemon) → IsSound d → IsSound (step i d)
unfolding step reprovision
step-IsSound (probe env reachable new_failed) d w =
    on_probe-IsSound d.place env reachable new_failed d refl w
step-IsSound (command env organization_id) d w =
    reprovision_at-IsSound d.place env organization_id d refl w
step-IsSound (attempt_done env calls ctx_done new_failed) d w =
    on_attempt-IsSound d.place env calls ctx_done new_failed d refl w
step-IsSound cancelled d w = on_cancelled-IsSound d.place d refl w

steps-IsSound : (is : List Input) (d : Daemon) → IsSound d → IsSound (steps is d)
unfolding steps
steps-IsSound [] d w = w
steps-IsSound (i ∷ is) d w = steps-IsSound is (step i d) (step-IsSound i d w)

-- In every state that the daemon reaches, for any disk, API answers, requests and cancellations: a
-- Cloud FSM is attached exactly while it stands in Run, its published state is that of its place
-- until it has returned, at most one Cloud FSM runs at a time, and none runs during a prelude or an
-- attempt.
pub reachable-IsSound : (prov : Service) (is : List Input) → IsSound (steps is (new prov))
reachable-IsSound prov is = steps-IsSound is (new prov) (new-IsSound prov)
