-- ===== src/Provisioning/Status.antt =====
-- The derived state after the prelude and after an attempt, as a later reader of the disk sees it.
use arduino_cloud_connector.Common.{
  ℕ, String, ◌≡◌, refl, ◌≢◌, true, false, ◌+◌, ltb, Option, none, some, arith, ◌∙◌, if◌then◌else◌,
  ◌⊎◌, inl, inr, Bool-cases,
}
use arduino_cloud_connector.Keystore.{
  device_cert, device_id_file, is_provisioned, wipe_cloud_credentials,
}
use arduino_cloud_connector.Keystore.Steps.{wipe_listed}
use arduino_cloud_connector.Keystore.Disk as Disk
use Disk.{Fs, Files, File, Content, is_there, stat, read, remove, put, remove_file}
use arduino_cloud_connector.Provisioning.Retry.{
  AttemptError, retry_window_expired, no_marker, cancelled, disk, done,
}
use arduino_cloud_connector.Provisioning.Prelude.{
  marker_of, begin_provisioning-Committed, store_organization_other, credential_steps, credentials,
}
use arduino_cloud_connector.Provisioning.Activated.{Active, Succeeds, run_attempt-Active}
use arduino_cloud_connector.Provisioning.Attempt.{Leaves, resumed-Leaves}
use arduino_cloud_connector.Provisioning.{
  Env, Service, Calls, Outcome, complete_with_retry, marker_deadline, succeeded, still_trying,
  failed, unprovisioned, provisioning, provisioned, error, state, marker_timestamp, marker_file,
  provisioning_window, begin_provisioning, run_attempt, after_marker, write_marker, roll_back,
  clear_marker,
}

state_of_marker :
    (fs : Fs) (now ts : ℕ) (s : Service)
    → s.files marker_file ≡ some (marker_of ts)
    → s.complete_failed ≡ none
    → fs (read marker_file) ≡ false
    → state fs now s ≡ (if ltb now (ts + provisioning_window) then provisioning else error)
unfolding state marker_timestamp
state_of_marker fs now ts s m c r = rw (m, c, r) refl

state_of_credentials :
    (fs : Fs) (now : ℕ) (s : Service)
    → s.files marker_file ≡ none
    → s.complete_failed ≡ none
    → is_there (s.files device_cert) ≡ true
    → is_there (s.files device_id_file) ≡ true
    → fs (stat device_cert) ≡ false
    → fs (stat device_id_file) ≡ false
    → state fs now s ≡ provisioned
unfolding state marker_timestamp is_provisioned
state_of_credentials fs now s m c d i sd si = ground arith

state_of_nothing :
    (fs : Fs) (now : ℕ) (s : Service)
    → s.files marker_file ≡ none
    → s.complete_failed ≡ none
    → s.files device_cert ≡ none
    → state fs now s ≡ unprovisioned
unfolding state marker_timestamp is_provisioned
state_of_nothing fs now s m c d = ground arith

roll_back_lost :
    (fs : Fs) (r : Option Disk.Error × Files)
    → fs (remove marker_file) ≡ false
    → (roll_back fs r).0 ≢ none
    → r.1 device_cert ≡ none
    → ((roll_back fs r).1 marker_file ≡ none) × ((roll_back fs r).1 device_cert ≡ none)
unfolding clear_marker remove_file
roll_back_lost fs (none, files) c h d = ground arith
roll_back_lost fs (some e, files) c h d = rw c (refl, d)

wipe_lost :
    (fs : Fs) (files : Files)
    → (wipe_cloud_credentials fs files).0 ≡ none
    → (wipe_cloud_credentials fs files).1 device_cert ≡ none
unfolding wipe_cloud_credentials
wipe_lost fs files w = wipe_listed fs credentials device_cert files w refl

after_marker_lost :
    (fs : Fs) (organization_id : String) (r : Option Disk.Error × Files)
    → r.0 ≡ none
    → (wipe_cloud_credentials fs r.1).0 ≡ none
    → fs (remove marker_file) ≡ false
    → (after_marker fs organization_id r).0 ≢ none
    → ((after_marker fs organization_id r).1 marker_file ≡ none)
      × ((after_marker fs organization_id r).1 device_cert ≡ none)
after_marker_lost fs organization_id (some e, files) m w c h = ground arith
after_marker_lost fs organization_id (none, files) m w c h =
    roll_back_lost fs (credential_steps fs organization_id files) c h (
      store_organization_other fs organization_id device_cert (wipe_cloud_credentials fs files) refl
      ∙ wipe_lost fs files w)

-- After a BeginProvisioning with no error, a reader that can read the marker is told Provisioning
-- until ten minutes after its start and Error from then on.
pub begun_state :
    (env : Env) (organization_id : String) (s : Service) (fs : Fs) (now : ℕ)
    → (begin_provisioning env organization_id s).0 ≡ none
    → fs (read marker_file) ≡ false
    → state fs now (begin_provisioning env organization_id s).1
      ≡ (if ltb now (env.now + provisioning_window) then provisioning else error)
begun_state env organization_id s fs now h r =
    let c = begin_provisioning-Committed env organization_id s h in
    state_of_marker fs now env.now (begin_provisioning env organization_id s).1 c.0.0 c.1 r

-- A later reader is told Provisioned, unless the marker was not removed or one of its calls of os.Stat fails.
abbrev pub IsTold : Env → Fs → ℕ → Service → Type 0
IsTold env fs now after =
    (state fs now after ≡ provisioned)
    ⊎ (env.fs (remove marker_file) ≡ true)
    ⊎ (fs (stat device_cert) ≡ true)
    ⊎ (fs (stat device_id_file) ≡ true)

succeeded-IsTold :
    (env : Env) (deadline : ℕ) (calls : Calls) (failure : Option AttemptError)
    (r : Outcome × Service) (fs : Fs) (now : ℕ)
    → r.0 ≡ succeeded
    → Succeeds (Active env deadline calls failure) r
    → failure ≡ none
    → (complete_with_retry deadline calls ≡ done tt) × IsTold env fs now r.1
succeeded-IsTold env deadline calls failure (succeeded, after) fs now o (a, c, d, m, f) n = (
  a,
  elim (Bool-cases (env.fs (remove marker_file))) [
    | inl lost ↦ inr (inl lost)
    | inr cleared ↦ elim (Bool-cases (fs (stat device_cert))) [
      | inl no_cert ↦ inr (inr (inl no_cert))
      | inr sd ↦ elim (Bool-cases (fs (stat device_id_file))) [
        | inl no_id ↦ inr (inr (inr no_id))
        | inr si ↦ inl (state_of_credentials fs now after (m cleared) (f ∙ n) c d sd si)
      ]
    ]
  ],
)
succeeded-IsTold env deadline calls failure (still_trying, after) fs now o a n = ground arith
succeeded-IsTold env deadline calls failure (failed e, after) fs now o a n = ground arith

expired_told :
    (r : Outcome × Service) (s : Service) (fs : Fs) (now : ℕ)
    → r.0 ≡ failed retry_window_expired
    → Leaves s r
    → state fs now r.1 ≡ error
unfolding state
expired_told (succeeded, after) s fs now o l = ground arith
expired_told (still_trying, after) s fs now o l = ground arith
expired_told (failed retry_window_expired, after) s fs now o (l, c) = rw c refl
expired_told (failed no_marker, after) s fs now o l = ground arith
expired_told (failed cancelled, after) s fs now o l = ground arith
expired_told (failed (disk e), after) s fs now o l = ground arith

-- If RunAttempt, with a marker and no remembered failure, succeeds, whichever half of the attempt
-- it began with, then provision/complete was answered; and every later reader is told Provisioned,
-- unless the removal of the marker failed or one of the reader's two calls of os.Stat fails.
pub succeeded_state :
    (env : Env) (deadline : ℕ) (calls : Calls) (s : Service) (fs : Fs) (now : ℕ)
    → s.complete_failed ≡ none
    → marker_deadline env.fs s.files ≡ some deadline
    → (run_attempt env calls s).0 ≡ succeeded
    → (complete_with_retry deadline calls ≡ done tt) × IsTold env fs now (run_attempt env calls s).1
succeeded_state env deadline calls s fs now f m o =
    succeeded-IsTold env deadline calls s.complete_failed (run_attempt env calls s) fs now o
      (run_attempt-Active env deadline calls s m) f

-- After an attempt begun with the credentials on the disk whose window expired, every later reader
-- is told Error, whatever calls failed in the clean-up and whatever the disk answers.
pub expired_state :
    (env : Env) (calls : Calls) (s : Service) (fs : Fs) (now : ℕ)
    → is_provisioned env.fs s.files ≡ true
    → (run_attempt env calls s).0 ≡ failed retry_window_expired
    → state fs now (run_attempt env calls s).1 ≡ error
expired_state env calls s fs now p o =
    expired_told (run_attempt env calls s) s fs now o (resumed-Leaves env calls s p)

-- If the marker is written, the wipe is done and the marker can be removed, but BeginProvisioning
-- still returns an error, then every later reader is told Unprovisioned, whatever the board was
-- before: its certificate is gone.
pub begin_provisioning_lossy :
    (env : Env) (organization_id : String) (s : Service) (fs : Fs) (now : ℕ)
    → (write_marker env.fs env.now s.files).0 ≡ none
    → (wipe_cloud_credentials env.fs (write_marker env.fs env.now s.files).1).0 ≡ none
    → env.fs (remove marker_file) ≡ false
    → (begin_provisioning env organization_id s).0 ≢ none
    → state fs now (begin_provisioning env organization_id s).1 ≡ unprovisioned
unfolding begin_provisioning
begin_provisioning_lossy env organization_id s fs now m w c h =
    let r = write_marker env.fs env.now s.files in
    let lost = after_marker_lost env.fs organization_id r m w c h in
    state_of_nothing fs now
      (record { files = (after_marker env.fs organization_id r).1; complete_failed = none }) lost.0
      refl lost.1
