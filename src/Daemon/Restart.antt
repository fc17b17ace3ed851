-- ===== src/Daemon/Restart.antt =====
-- What the daemon does with a request, and with an interrupted attempt after a restart.
use arduino_cloud_connector.Common.{
  ◌≡◌, refl, ◌≢◌, ◌⊎◌, inl, inr, Bool, true, false, none, ◌∷◌, arith, String, ltb, ◌+◌,
  if◌then◌else◌, Bool-cases,
}
use arduino_cloud_connector.Provisioning as Provisioning
use arduino_cloud_connector.Provisioning.{
  Env, Calls, Outcome, succeeded, still_trying, failed, Service, run_attempt, begin_provisioning,
  marker_file, provisioning_window,
}
use arduino_cloud_connector.Provisioning.Status.{begun_state}
use arduino_cloud_connector.Keystore.Disk.{read}
use arduino_cloud_connector.Daemon.{
  Daemon, Place, checking, attempting, parked, running, returned, new, transition, run_provisioning,
  detach_cloud, pick_state, pick_post_internet_state, begin_reprovision, Reply, busy, replied,
  attempt, reprovision_at, reprovision, attempted, run_attempt_now, Input, probe, command,
  attempt_done, cancelled, on_probe, on_attempt, on_cancelled, step, is_nil,
}

-- A daemon restarted on the disk that a successful prelude left, once the internet is reachable and
-- if it can read the marker, runs the attempt at once if less than ten minutes have passed since
-- the prelude, and otherwise waits for a request.
pub restart_resumes :
    (env boot : Env) (organization_id : String) (s : Service) (new_failed : Bool)
    → (begin_provisioning env organization_id s).0 ≡ none
    → boot.fs (read marker_file) ≡ false
    → (step (probe boot true new_failed) (new (begin_provisioning env organization_id s).1)).place
      ≡ (if ltb boot.now (env.now + provisioning_window) then attempting else parked)
unfolding step new pick_post_internet_state run_provisioning transition
restart_resumes env boot organization_id s new_failed b r =
    rw (begun_state env organization_id s boot.fs boot.now b r)
      (elim (Bool-cases (ltb boot.now (env.now + provisioning_window))) [
        | inl e ↦ rw e refl
        | inr e ↦ rw e refl
      ])

-- What a request comes to, at each place.
abbrev pub Answers : Env → String → Daemon → Reply × Daemon → Type 0
Answers env organization_id d r =
    let begun = begin_provisioning env organization_id d.prov in
    ((r.0 ≡ busy) × (r.1 ≡ d) × (d.place ≢ parked) × (d.place ≢ running))
    ⊎ (((d.place ≡ parked) ⊎ (d.place ≡ running))
        × (r.0 ≡ replied begun.0)
        × (r.1.prov ≡ begun.1)
        × (r.1.place ≡ (if is_nil begun.0 then attempting else parked)))

reprovision_at-Answers :
    (place : Place) (env : Env) (organization_id : String) (d : Daemon)
    → d.place ≡ place
    → Answers env organization_id d (reprovision_at place env organization_id d)
unfolding begin_reprovision run_provisioning transition detach_cloud
reprovision_at-Answers parked env organization_id d p = inr (inl p, refl, refl, refl)
reprovision_at-Answers running env organization_id d p = inr (inr p, refl, refl, refl)
reprovision_at-Answers checking env organization_id d p =
    inl (refl, refl, ground arith, ground arith)
reprovision_at-Answers attempting env organization_id d p =
    inl (refl, refl, ground arith, ground arith)
reprovision_at-Answers returned env organization_id d p =
    inl (refl, refl, ground arith, ground arith)

-- Reprovision is answered busy, with nothing changed, exactly where the daemon is neither waiting
-- in Provisioning nor in Run; there it is answered with the result of the prelude, which has run,
-- and the attempt follows exactly if that returned no error.
pub reprovision-Answers :
    (env : Env) (organization_id : String) (d : Daemon)
    → Answers env organization_id d (reprovision env organization_id d)
unfolding reprovision
reprovision-Answers env organization_id d =
    reprovision_at-Answers d.place env organization_id d refl

pick_state_running :
    (s : Provisioning.State) (new_failed : Bool) (d : Daemon)
    → (pick_state s new_failed d).place ≡ running
    → s ≡ Provisioning.provisioned
unfolding run_provisioning transition
pick_state_running Provisioning.provisioned new_failed d q = refl
pick_state_running Provisioning.provisioning new_failed d q = ground arith
pick_state_running Provisioning.unprovisioned new_failed d q = ground arith
pick_state_running Provisioning.error new_failed d q = ground arith

on_probe_running :
    (place : Place) (env : Env) (reachable new_failed : Bool) (d : Daemon)
    → d.place ≢ running
    → (on_probe place env reachable new_failed d).place ≡ running
    → (reachable ≡ true) × (Provisioning.state env.fs env.now d.prov ≡ Provisioning.provisioned)
unfolding pick_post_internet_state
on_probe_running checking env true new_failed d p q =
    (refl, pick_state_running (Provisioning.state env.fs env.now d.prov) new_failed d q)
on_probe_running checking env false new_failed d p q = ground arith
on_probe_running attempting env reachable new_failed d p q = ground arith
on_probe_running parked env reachable new_failed d p q = ground arith
on_probe_running running env reachable new_failed d p q = ground arith
on_probe_running returned env reachable new_failed d p q = ground arith

attempted_running :
    (outcome : Outcome) (ctx_done new_failed : Bool) (before d : Daemon)
    → before.place ≢ running
    → (attempted outcome ctx_done new_failed before d).place ≡ running
    → outcome ≡ succeeded
attempted_running succeeded ctx_done new_failed before d p q = refl
attempted_running still_trying ctx_done new_failed before d p q = ground arith
attempted_running (failed e) true new_failed before d p q = ground arith
attempted_running (failed e) false new_failed before d p q = ground arith

on_attempt_running :
    (place : Place) (env : Env) (calls : Calls) (ctx_done new_failed : Bool) (d : Daemon)
    → d.place ≢ running
    → (on_attempt place env calls ctx_done new_failed d).place ≡ running
    → (run_attempt env calls d.prov).0 ≡ succeeded
unfolding run_attempt_now
on_attempt_running attempting env calls ctx_done new_failed d p q =
    attempted_running (run_attempt env calls d.prov).0 ctx_done new_failed d
      (record d { prov = (run_attempt env calls d.prov).1; log = attempt ∷ d.log }) p q
on_attempt_running checking env calls ctx_done new_failed d p q = ground arith
on_attempt_running parked env calls ctx_done new_failed d p q = ground arith
on_attempt_running running env calls ctx_done new_failed d p q = ground arith
on_attempt_running returned env calls ctx_done new_failed d p q = ground arith

-- What the daemon has seen when an input takes it to Run.
abbrev pub Activated : Input → Service → Type 0
Activated (probe env reachable new_failed) prov =
    (reachable ≡ true) × (Provisioning.state env.fs env.now prov ≡ Provisioning.provisioned)
Activated (attempt_done env calls ctx_done new_failed) prov =
    (run_attempt env calls prov).0 ≡ succeeded
Activated (command env organization_id) prov = ⊥
Activated cancelled prov = ⊥

reprovision_at_running :
    (place : Place) (env : Env) (organization_id : String) (d : Daemon)
    → d.place ≢ running
    → (reprovision_at place env organization_id d).1.place ≢ running
unfolding begin_reprovision run_provisioning transition detach_cloud
reprovision_at_running parked env organization_id d p = ground arith
reprovision_at_running running env organization_id d p = ground arith
reprovision_at_running checking env organization_id d p = p
reprovision_at_running attempting env organization_id d p = p
reprovision_at_running returned env organization_id d p = p

on_cancelled_running :
    (place : Place) (d : Daemon) → d.place ≢ running → (on_cancelled place d).place ≢ running
on_cancelled_running running d p = ground arith
on_cancelled_running attempting d p = p
on_cancelled_running checking d p = ground arith
on_cancelled_running parked d p = ground arith
on_cancelled_running returned d p = ground arith

-- The daemon enters Run only by a probe that found the internet while the provisioning state read
-- Provisioned, or by an attempt that succeeded.
pub step_enters-Activated :
    (i : Input) (d : Daemon) → d.place ≢ running → (step i d).place ≡ running → Activated i d.prov
unfolding step reprovision
step_enters-Activated (probe env reachable new_failed) d p q =
    on_probe_running d.place env reachable new_failed d p q
step_enters-Activated (attempt_done env calls ctx_done new_failed) d p q =
    on_attempt_running d.place env calls ctx_done new_failed d p q
step_enters-Activated (command env organization_id) d p q =
    reprovision_at_running d.place env organization_id d p q
step_enters-Activated cancelled d p q = on_cancelled_running d.place d p q
