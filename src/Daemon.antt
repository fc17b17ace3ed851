-- ===== src/Daemon.antt =====
-- internal/daemon/daemon.go: the daemon's state machine, and in Outbound and Packet the delivery of
-- values set by the apps. The machine stands at a select, in RunAttempt, or has returned;
-- a command is accepted only where it stands at a select that reads commands.
pub mod Invariant
pub mod Restart
pub mod Outbound
pub mod Order
pub mod Lossless
pub mod Packet
mod Examples
use arduino_cloud_connector.Common.{
  String, Bool, true, false, Option, none, some, List, [], ◌∷◌, ◌&&◌, if◌then◌else◌,
}
use arduino_cloud_connector.Keystore.Disk as Disk
use arduino_cloud_connector.Provisioning as Provisioning
use arduino_cloud_connector.Provisioning.{
  Env, Service, Calls, Outcome, succeeded, still_trying, failed, begin_provisioning, run_attempt,
}
use arduino_cloud_connector.Cloud as Cloud

pub data State : Type 0 where
  check_internet provisioning run : State

-- What the daemon's goroutine is doing.
pub data Place : Type 0 where
  checking attempting parked running returned : Place

-- The calls of the Cloud FSM and of the provisioning service, newest first.
pub data Action : Type 0 where
  start_cloud stop_cloud prelude attempt : Action

pub record Daemon : Type 0 where
  pub place : Place
  pub state : State
  pub attached : Bool
  pub prov : Service
  pub log : List Action

pub record Snapshot : Type 0 where
  pub state : State
  pub cloud : Option Cloud.Snapshot

unfoldable pub new : Service → Daemon
new prov = record {
  place = checking;
  state = check_internet;
  attached = false;
  prov = prov;
  log = [];
}

-- The snapshot, given that of the Cloud FSM.
abbrev pub snapshot : Cloud.Snapshot → Daemon → Snapshot
snapshot cloud d = record { state = d.state; cloud = if d.attached then some cloud else none }

abbrev pub is_run : State → Bool
is_run run = true
is_run other = false

abbrev pub is_steady : Option Cloud.Snapshot → Bool
is_steady none = false
is_steady (some cloud) = elim cloud.state [ Cloud.steady ↦ true | other ↦ false ]

unfoldable pub cloud_steady : Cloud.Snapshot → Daemon → Bool
cloud_steady cloud d = let s = snapshot cloud d in is_run s.state && is_steady s.cloud

unfoldable pub transition : State → Daemon → Daemon
transition state d = record d { state = state }

-- runCheckInternet, up to its select.
unfoldable pub run_check_internet : Daemon → Daemon
run_check_internet d = record (transition check_internet d) { place = checking }

-- runProvisioning, up to RunAttempt or its select.
unfoldable pub run_provisioning : Bool → Daemon → Daemon
run_provisioning attempt_first d = record (transition provisioning d) {
  place = if attempt_first then attempting else parked;
}

-- attachCloud and the goroutine that it starts; detachCloud once that has ended.
unfoldable pub attach_cloud : Daemon → Daemon
attach_cloud d = record d { attached = true; place = running; log = start_cloud ∷ d.log }

unfoldable pub detach_cloud : Daemon → Daemon
detach_cloud d = record d { attached = false; log = stop_cloud ∷ d.log }

-- runRun, up to its select; cloud.New may return an error.
unfoldable pub run_run : Bool → Daemon → Daemon
run_run new_failed d =
    if new_failed then run_check_internet (transition run d) else attach_cloud (transition run d)

abbrev pub pick_state : Provisioning.State → Bool → Daemon → Daemon
pick_state Provisioning.provisioning new_failed d = run_provisioning true d
pick_state Provisioning.provisioned new_failed d = run_run new_failed d
pick_state other new_failed d = run_provisioning false d

unfoldable pub pick_post_internet_state : Env → Bool → Daemon → Daemon
pick_post_internet_state env new_failed d =
    pick_state (Provisioning.state env.fs env.now d.prov) new_failed d

unfoldable pub begin_reprovision : Env → String → Daemon → Option Disk.Error × Daemon
begin_reprovision env organization_id d =
    let r = begin_provisioning env organization_id d.prov in
    (r.0, record d { prov = r.1; log = prelude ∷ d.log })

abbrev pub is_nil : Option Disk.Error → Bool
is_nil none = true
is_nil (some e) = false

-- `proceed`, and the state that comes after the prelude.
abbrev pub proceeds : Option Disk.Error × Daemon → Option Disk.Error × Daemon
proceeds (e, d) = (e, run_provisioning (is_nil e) d)

-- What the caller of Reprovision is told.
pub data Reply : Type 0 where
  busy : Reply
  replied : Option Disk.Error → Reply

abbrev pub reply : Option Disk.Error × Daemon → Reply × Daemon
reply (e, d) = (replied e, d)

abbrev pub reprovision_at : Place → Env → String → Daemon → Reply × Daemon
reprovision_at parked env organization_id d =
    reply (proceeds (begin_reprovision env organization_id d))
reprovision_at running env organization_id d =
    reply (proceeds (begin_reprovision env organization_id (detach_cloud d)))
reprovision_at other env organization_id d = (busy, d)

unfoldable pub reprovision : Env → String → Daemon → Reply × Daemon
reprovision env organization_id d = reprovision_at d.place env organization_id d

-- What comes after RunAttempt, given the daemon before it and the daemon with its effects. An attempt
-- that has not returned is no event.
abbrev pub attempted : Outcome → Bool → Bool → Daemon → Daemon → Daemon
attempted succeeded ctx_done new_failed before d = run_run new_failed d
attempted still_trying ctx_done new_failed before d = before
attempted (failed e) ctx_done new_failed before d = record d {
  place = if ctx_done then returned else parked;
}

unfoldable pub run_attempt_now : Env → Calls → Bool → Bool → Daemon → Daemon
run_attempt_now env calls ctx_done new_failed d =
    let r = run_attempt env calls d.prov in
    attempted r.0 ctx_done new_failed d (record d { prov = r.1; log = attempt ∷ d.log })

-- What wakes the goroutine.
pub data Input : Type 0 where
  probe : Env → Bool → Bool → Input
  command : Env → String → Input
  attempt_done : Env → Calls → Bool → Bool → Input
  cancelled : Input

abbrev pub on_probe : Place → Env → Bool → Bool → Daemon → Daemon
on_probe checking env reachable new_failed d =
    if reachable then pick_post_internet_state env new_failed d else d
on_probe other env reachable new_failed d = d

abbrev pub on_attempt : Place → Env → Calls → Bool → Bool → Daemon → Daemon
on_attempt attempting env calls ctx_done new_failed d =
    run_attempt_now env calls ctx_done new_failed d
on_attempt other env calls ctx_done new_failed d = d

-- ctx.Done in a select.
abbrev pub on_cancelled : Place → Daemon → Daemon
on_cancelled running d = record (detach_cloud d) { place = returned }
on_cancelled attempting d = d
on_cancelled other d = record d { place = returned }

unfoldable pub step : Input → Daemon → Daemon
step (probe env reachable new_failed) d = on_probe d.place env reachable new_failed d
step (command env organization_id) d = (reprovision env organization_id d).1
step (attempt_done env calls ctx_done new_failed) d =
    on_attempt d.place env calls ctx_done new_failed d
step cancelled d = on_cancelled d.place d

unfoldable pub steps : List Input → Daemon → Daemon
steps [] d = d
steps (i ∷ is) d = steps is (step i d)
