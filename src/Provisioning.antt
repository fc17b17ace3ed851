-- ===== src/Provisioning.antt =====
-- internal/provisioning/provisioning.go: the service, the state it derives from the disk, the
-- prelude of an attempt and the attempt. The Provisioning API, the board token and the crypto
-- library are parameters. Times are in nanoseconds from Go's zero time.
pub mod Retry
mod Returns
mod Attempt
mod Examples
pub mod Status
mod Prelude
mod Activated
use arduino_cloud_connector.Common.{
  ℕ, String, Bool, true, false, Option, none, some, List, [], ◌∷◌, ◌+◌, ltb, ◌&&◌, str_eq,
  if◌then◌else◌,
}
use arduino_cloud_connector.Keystore.{
  Crypto, provisioning_priv_key, device_id_file, device_cert, is_provisioned,
  wipe_cloud_credentials, rotate_cloud_key, generate_csr, load_priv_key, read_credential,
  store_credential,
}
use arduino_cloud_connector.Keystore.Disk as Disk
use Disk.{Content, text, time_text, File, Files, Fs, Result, ok, err, remove_file, write_temp_file}
use Retry.{
  Round, no_marker, AttemptError, disk, cancelled, retry_window_expired, Retried, done, gave_up,
  trying, with_retry, retry_initial_backoff,
}

pub data State : Type 0 where
  unprovisioned provisioning provisioned error : State

abbrev pub marker_file : String
marker_file = "provisioning_inflight"

abbrev pub provisioning_window : ℕ
provisioning_window = 600_000_000_000

-- What an operation of the service finds: the calls that fail, the key material, the board token
-- made of the provisioning key, the hardware id, and the parameter `now` of time.Now.
pub record Env : Type 0 where
  pub fs : Fs
  pub crypto : Crypto
  pub sign_token : String → Option String
  pub uhwid : String
  pub now : ℕ

pub record Service : Type 0 where
  pub files : Files
  pub complete_failed : Option AttemptError

-- ── in-flight marker ──

abbrev pub parsed_time : Result Content → Option ℕ
parsed_time (err e) = none
parsed_time (ok (time_text ts)) = some ts
parsed_time (ok (text s)) = some 0

unfoldable pub marker_timestamp : Fs → Files → Option ℕ
marker_timestamp fs files =
    parsed_time (Disk.read_file fs marker_file (Disk.missing marker_file) files)

unfoldable pub marker_deadline : Fs → Files → Option ℕ
marker_deadline fs files = elim (marker_timestamp fs files) [
  | none ↦ none
  | some ts ↦ some (ts + provisioning_window)
]

unfoldable pub clear_marker : Fs → Files → Option Disk.Error × Files
clear_marker fs files = remove_file fs marker_file files

unfoldable pub write_marker : Fs → ℕ → Files → Option Disk.Error × Files
write_marker fs ts files = write_temp_file fs marker_file (time_text ts) files

-- ── the derived state ──

abbrev pub of_credentials : Bool → State
of_credentials true = provisioned
of_credentials false = unprovisioned

abbrev pub of_marker : ℕ → Option ℕ → State → State
of_marker now none other = other
of_marker now (some ts) other = if ltb now (ts + provisioning_window) then provisioning else error

abbrev pub of_failure : Option AttemptError → State → State
of_failure none other = other
of_failure (some e) other = error

unfoldable pub state : Fs → ℕ → Service → State
state fs now s =
    of_failure s.complete_failed
      (of_marker now (marker_timestamp fs s.files) (of_credentials (is_provisioned fs s.files)))

abbrev pub is_some : Option ℕ → Bool
is_some none = false
is_some (some n) = true

unfoldable pub in_flight : Fs → Service → Bool
in_flight fs s = is_some (marker_timestamp fs s.files)

-- ── the prelude ──

-- A failed step after the marker removes the marker again.
abbrev pub roll_back : Fs → Option Disk.Error × Files → Option Disk.Error × Files
roll_back fs (none, files) = (none, files)
roll_back fs (some e, files) = (some e, (clear_marker fs files).1)

abbrev pub store_organization : Fs → String → Option Disk.Error × Files → Option Disk.Error × Files
store_organization fs organization_id (some e, files) = (some e, files)
store_organization fs organization_id (none, files) =
    if str_eq organization_id ""
    then (none, files)
    else store_credential fs "organization_id" organization_id files

abbrev pub after_marker : Fs → String → Option Disk.Error × Files → Option Disk.Error × Files
after_marker fs organization_id (some e, files) = (some e, files)
after_marker fs organization_id (none, files) =
    roll_back fs (store_organization fs organization_id (wipe_cloud_credentials fs files))

unfoldable pub begin_provisioning : Env → String → Service → Option Disk.Error × Service
begin_provisioning env organization_id s =
    let r = after_marker env.fs organization_id (write_marker env.fs env.now s.files) in
    (r.0, record { files = r.1; complete_failed = none })

-- ── the attempt ──

-- The result of RunAttempt, or that the rounds given to it have run out.
pub data Outcome : Type 0 where
  succeeded still_trying : Outcome
  failed : AttemptError → Outcome

abbrev pub signed_token : Env → Result String → Result String
signed_token env (err e) = err e
signed_token env (ok key) = elim (env.sign_token key) [
  | none ↦ err Disk.crypto_failed
  | some token ↦ ok token
]

unfoldable pub board_token : Env → Files → Result String
board_token env files =
    signed_token env (load_priv_key env.fs env.crypto provisioning_priv_key files)

-- The switch of completePhase.
abbrev pub complete_outcome : Env → Retried (Unit {0}) → Service → Outcome × Service
complete_outcome env trying s = (still_trying, s)
complete_outcome env (done tt) s = (succeeded, record s { files = (clear_marker env.fs s.files).1 })
complete_outcome env (gave_up retry_window_expired) s = (
  failed retry_window_expired,
  record {
    files = (clear_marker env.fs (wipe_cloud_credentials env.fs s.files).1).1;
    complete_failed = some retry_window_expired;
  },
)
complete_outcome env (gave_up e) s = (failed e, s)

-- The two loops of an attempt: when each begins, and its rounds.
pub record Calls : Type 0 where
  pub csr_start : ℕ
  pub csr_rounds : List (Round (String × String))
  pub complete_start : ℕ
  pub complete_rounds : List (Round (Unit {0}))

unfoldable pub submit_csr_with_retry : ℕ → Calls → Retried (String × String)
submit_csr_with_retry deadline calls =
    with_retry deadline calls.csr_start retry_initial_backoff calls.csr_rounds

unfoldable pub complete_with_retry : ℕ → Calls → Retried (Unit {0})
complete_with_retry deadline calls =
    with_retry deadline calls.complete_start retry_initial_backoff calls.complete_rounds

unfoldable pub complete_phase : Env → ℕ → Calls → Service → Outcome × Service
complete_phase env deadline calls s = complete_outcome env (complete_with_retry deadline calls) s

abbrev pub with_token : Result String → Service → (Service → Outcome × Service) → Outcome × Service
with_token (err e) s next = (failed (disk e), s)
with_token (ok token) s next = next s

abbrev pub with_device_id : Env → ℕ → Calls → Service → Result Content → Outcome × Service
with_device_id env deadline calls s (err e) = (failed (disk e), s)
with_device_id env deadline calls s (ok device_id) =
    with_token (board_token env s.files) s (complete_phase env deadline calls)

-- A certificate is on the disk: only its activation is missing.
unfoldable pub resume : Env → ℕ → Calls → Service → Outcome × Service
resume env deadline calls s =
    with_device_id env deadline calls s (read_credential env.fs device_id_file s.files)

-- A step on the disk that ends the attempt if it fails.
abbrev pub with_files :
    Option Disk.Error × Files → Service → (Service → Outcome × Service) → Outcome × Service
with_files (some e, files) s next = (failed (disk e), record s { files = files })
with_files (none, files) s next = next (record s { files = files })

unfoldable pub store_issued : Env → ℕ → Calls → String → String → Service → Outcome × Service
store_issued env deadline calls device_id cert s =
    with_files (store_credential env.fs device_cert cert s.files) s (λ (s : Service).
      with_files (store_credential env.fs device_id_file device_id s.files) s
        (complete_phase env deadline calls))

abbrev pub after_csr : Env → ℕ → Calls → Retried (String × String) → Service → Outcome × Service
after_csr env deadline calls trying s = (still_trying, s)
after_csr env deadline calls (gave_up e) s = (failed e, s)
after_csr env deadline calls (done (device_id, cert)) s =
    store_issued env deadline calls device_id cert s

abbrev pub with_csr : Env → ℕ → Calls → Result String → Service → Outcome × Service
with_csr env deadline calls (err e) s = (failed (disk e), s)
with_csr env deadline calls (ok csr) s =
    with_token (board_token env s.files) s
      (after_csr env deadline calls (submit_csr_with_retry deadline calls))

unfoldable pub request_certificate : Env → ℕ → Calls → Service → Outcome × Service
request_certificate env deadline calls s =
    with_files (rotate_cloud_key env.fs env.crypto s.files) s (λ (s : Service).
      with_csr env deadline calls (generate_csr env.fs env.crypto env.uhwid s.files) s)

abbrev pub with_deadline : Env → Calls → Option ℕ → Service → Outcome × Service
with_deadline env calls none s = (failed no_marker, s)
with_deadline env calls (some deadline) s =
    if is_provisioned env.fs s.files
    then resume env deadline calls s
    else request_certificate env deadline calls s

unfoldable pub run_attempt : Env → Calls → Service → Outcome × Service
run_attempt env calls s = with_deadline env calls (marker_deadline env.fs s.files) s

abbrev pub after_prelude : Env → Calls → Option Disk.Error × Service → Outcome × Service
after_prelude env calls (some e, s) = (failed (disk e), s)
after_prelude env calls (none, s) = run_attempt env calls s

-- Both halves one after the other, each with what it finds.
unfoldable pub start : Env → Env → String → Calls → Service → Outcome × Service
start env attempt organization_id calls s =
    after_prelude attempt calls (begin_provisioning env organization_id s)
