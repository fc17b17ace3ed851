-- ===== src/Provisioning/Attempt.antt =====
-- What a resumed attempt leaves behind, for each of its outcomes.
use arduino_cloud_connector.Common.{
  ℕ, String, ◌≡◌, refl, true, false, Option, none, some, arith, str_eq, [], ◌∷◌,
}
use arduino_cloud_connector.Keystore.{
  device_cert, device_id_file, organization_id_file, is_provisioned, wipe_cloud_credentials,
  read_credential,
}
use arduino_cloud_connector.Keystore.Disk.{Fs, Files, Content, Result, ok, err}
use arduino_cloud_connector.Keystore.Steps.{wipe_other, remove_file_other}
use arduino_cloud_connector.Provisioning.Retry.{
  Retried, done, gave_up, trying, retry_window_expired, cancelled, no_marker, disk,
}
use arduino_cloud_connector.Provisioning.{
  Env, Calls, Service, Outcome, succeeded, still_trying, failed, run_attempt, complete_phase,
  complete_outcome, complete_with_retry, marker_file, clear_marker, resume, with_device_id,
  with_token, board_token, marker_deadline, with_deadline,
}

-- Every file but the marker is as it was.
abbrev pub AllButMarker : Files → Files → Type 0
AllButMarker before after =
    (name : String) → str_eq marker_file name ≡ false → after name ≡ before name

-- Every file but the marker and the credentials is as it was.
abbrev pub AllButCredentials : Files → Files → Type 0
AllButCredentials before after =
    (name : String)
    → str_eq marker_file name ≡ false
    → str_eq device_cert name ≡ false
    → str_eq device_id_file name ≡ false
    → str_eq organization_id_file name ≡ false
    → after name ≡ before name

-- A finished attempt has removed the marker alone; one whose window closed has given up its
-- certificate and remembers it; whatever else happened has touched nothing.
abbrev pub Leaves : Service → Outcome × Service → Type 0
Leaves s (succeeded, after) =
    AllButMarker s.files after.files × (after.complete_failed ≡ s.complete_failed)
Leaves s (still_trying, after) = after ≡ s
Leaves s (failed retry_window_expired, after) =
    AllButCredentials s.files after.files × (after.complete_failed ≡ some retry_window_expired)
Leaves s (failed e, after) = after ≡ s

clear_marker_other : (fs : Fs) (files : Files) → AllButMarker files (clear_marker fs files).1
unfolding clear_marker
clear_marker_other fs files name ne = remove_file_other fs marker_file name files ne

discard_other :
    (fs : Fs) (files : Files)
    → AllButCredentials files (clear_marker fs (wipe_cloud_credentials fs files).1).1
unfolding wipe_cloud_credentials
discard_other fs files name m c d o = ground (
  arith,
  clear_marker_other fs (wipe_cloud_credentials fs files).1 name m,
  wipe_other fs (device_cert ∷ device_id_file ∷ organization_id_file ∷ []) name files,
)

complete_outcome-Leaves :
    (env : Env) (r : Retried (Unit {0})) (s : Service) → Leaves s (complete_outcome env r s)
complete_outcome-Leaves env trying s = refl
complete_outcome-Leaves env (done tt) s = (clear_marker_other env.fs s.files, refl)
complete_outcome-Leaves env (gave_up retry_window_expired) s = (discard_other env.fs s.files, refl)
complete_outcome-Leaves env (gave_up no_marker) s = refl
complete_outcome-Leaves env (gave_up cancelled) s = refl
complete_outcome-Leaves env (gave_up (disk e)) s = refl

with_token-Leaves :
    (env : Env) (deadline : ℕ) (calls : Calls) (s : Service) (token : Result String)
    → Leaves s (with_token token s (complete_phase env deadline calls))
unfolding complete_phase
with_token-Leaves env deadline calls s (err e) = refl
with_token-Leaves env deadline calls s (ok token) =
    complete_outcome-Leaves env (complete_with_retry deadline calls) s

with_device_id-Leaves :
    (env : Env) (deadline : ℕ) (calls : Calls) (s : Service) (id : Result Content)
    → Leaves s (with_device_id env deadline calls s id)
with_device_id-Leaves env deadline calls s (err e) = refl
with_device_id-Leaves env deadline calls s (ok id) =
    with_token-Leaves env deadline calls s (board_token env s.files)

resume-Leaves :
    (env : Env) (deadline : ℕ) (calls : Calls) (s : Service)
    → Leaves s (resume env deadline calls s)
unfolding resume
resume-Leaves env deadline calls s =
    with_device_id-Leaves env deadline calls s (read_credential env.fs device_id_file s.files)

with_deadline-Leaves :
    (env : Env) (calls : Calls) (s : Service) (deadline : Option ℕ)
    → is_provisioned env.fs s.files ≡ true
    → Leaves s (with_deadline env calls deadline s)
with_deadline-Leaves env calls s none p = refl
with_deadline-Leaves env calls s (some deadline) p = rw p (resume-Leaves env deadline calls s)

-- Whatever calls fail and whatever the API answers, an attempt begun with the credentials on the
-- disk changes no file but the marker when it succeeds; when its window closed it remembers the
-- failure and changes no file but the marker and the credentials; and on every other outcome, a
-- cancellation, a failed read or a loop still running included, it leaves the marker, the
-- credentials and all else as they were.
pub resumed-Leaves :
    (env : Env) (calls : Calls) (s : Service)
    → is_provisioned env.fs s.files ≡ true
    → Leaves s (run_attempt env calls s)
unfolding run_attempt
resumed-Leaves env calls s p = with_deadline-Leaves env calls s (marker_deadline env.fs s.files) p
