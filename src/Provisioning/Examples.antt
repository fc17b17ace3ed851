-- ===== src/Provisioning/Examples.antt =====
-- The theorems on provisioning at a board that is provisioned, loses its activation, and starts anew.
use arduino_cloud_connector.Common.{
  ℕ, zero, suc, String, ◌≡◌, ◌≢◌, refl, true, false, Option, none, some, List, [], ◌∷◌, arith,
  str_eq, if◌then◌else◌, ◌⊎◌,
}
use arduino_cloud_connector.Keystore.{
  Crypto, device_cert, device_id_file, provisioning_priv_key, organization_id_file, is_provisioned,
  wipe_cloud_credentials, generate_csr, rotate_cloud_key, ensure_key_pair,
  check_priv_key_permissions, load_priv_key, store_credential, wipe,
}
use arduino_cloud_connector.Keystore.Disk.{
  File, Fs, text, create_temp, remove, write_file, first_failure, remove_file, write_temp_file,
}
use arduino_cloud_connector.Provisioning.Retry.{
  Round, done, trying, with_retry, round, retry_initial_backoff,
}
use arduino_cloud_connector.Provisioning.Returns.{with_retry_returns}
use arduino_cloud_connector.Provisioning.Attempt.{Leaves, resumed-Leaves}
use arduino_cloud_connector.Provisioning.Prelude.{
  Committed, begin_provisioning_crash, begin_provisioning-Committed, marker_of,
}
use arduino_cloud_connector.Provisioning.Status.{IsTold, succeeded_state, begin_provisioning_lossy}
use arduino_cloud_connector.Provisioning.{
  Env, Service, Calls, state, unprovisioned, marker_file, marker_timestamp, marker_deadline,
  provisioning_window, begin_provisioning, run_attempt, request_certificate, store_issued,
  complete_phase, submit_csr_with_retry, complete_with_retry, board_token, write_marker,
}

abbrev healthy : Fs
healthy c = false

-- A disk on which one call fails.
abbrev failing_store : Fs
failing_store (create_temp name) = str_eq organization_id_file name
failing_store c = false

abbrev failing_remove : Fs
failing_remove (remove name) = true
failing_remove c = false

abbrev crypto : Crypto
crypto = record {
  new_key = some ("cloud key", "public key");
  parse_key = λ c. elim c [ text s ↦ some s | _ ↦ none ];
  sign_csr = λ key uhwid. some "csr";
}

abbrev at : Fs → ℕ → Env
at fs now = record {
  fs = fs;
  crypto = crypto;
  sign_token = λ key. some "token";
  uhwid = "uhwid";
  now = now;
}

abbrev board_file : String → Option File
board_file s = some (record { content = text s; mode = 0o600 })

-- A provisioned board.
abbrev board : Service
board = record {
  files = λ name.
      if str_eq device_cert name
      then board_file "cert"
      else if str_eq device_id_file name
      then board_file "id"
      else if str_eq provisioning_priv_key name
      then board_file "key"
      else none;
  complete_failed = none;
}

abbrev rejected : {A : Type 0} → Round A
rejected = record {
  took = 1_000_000_000;
  answer = none;
  cancelled_call = false;
  cancelled_wait = false;
  late = 0;
}

abbrev accepted : {A : Type 0} → A → Round A
accepted a = record {
  took = 1_000_000_000;
  answer = some a;
  cancelled_call = false;
  cancelled_wait = false;
  late = 0;
}

-- The CSR is refused once and answered then; the activation is answered at once.
abbrev answered : Calls
answered = record {
  csr_start = 1_000_000_000;
  csr_rounds = rejected ∷ accepted ("new id", "new cert") ∷ [];
  complete_start = 9_000_000_000;
  complete_rounds = accepted tt ∷ [];
}

-- An activation that is refused when the window is over.
abbrev refused : Calls
refused = record {
  csr_start = 0;
  csr_rounds = [];
  complete_start = 600_000_000_000;
  complete_rounds = rejected ∷ [];
}

-- The board after a prelude, which has no credentials, and a board with a certificate and a marker.
abbrev begun : Service
begun = (begin_provisioning (at healthy 0) "org" board).1

abbrev issued : Service
issued = record board { files = (write_marker healthy 0 board.files).1 }

begin_provisioning_crash_example :
    ((begin_provisioning (at failing_remove 5) "org" board).1.files marker_file
      ≡ some (marker_of 5))
    ⊎ ((begin_provisioning (at failing_remove 5) "org" board).1.files ≡ board.files)
begin_provisioning_crash_example = begin_provisioning_crash (at failing_remove 5) "org" board refl

begin_provisioning-Committed_example :
    Committed 0 "org" board.files begun.files × (begun.complete_failed ≡ none)
unfolding begin_provisioning write_marker write_temp_file first_failure wipe_cloud_credentials wipe
    remove_file store_credential write_file
begin_provisioning-Committed_example = begin_provisioning-Committed (at healthy 0) "org" board refl

succeeded_state_example :
    (complete_with_retry provisioning_window answered ≡ done tt)
    × IsTold (at healthy 0) healthy 20_000_000_000 (run_attempt (at healthy 0) answered begun).1
unfolding begin_provisioning write_marker write_temp_file first_failure wipe_cloud_credentials wipe
    remove_file store_credential write_file run_attempt marker_deadline marker_timestamp
    is_provisioned request_certificate rotate_cloud_key ensure_key_pair check_priv_key_permissions
    generate_csr load_priv_key board_token submit_csr_with_retry with_retry round store_issued
    complete_phase complete_with_retry
succeeded_state_example =
    succeeded_state (at healthy 0) provisioning_window answered begun healthy 20_000_000_000 refl
      refl refl

resumed-Leaves_example : Leaves issued (run_attempt (at healthy 0) refused issued)
unfolding write_marker write_temp_file first_failure is_provisioned
resumed-Leaves_example = resumed-Leaves (at healthy 0) refused issued refl

begin_provisioning_lossy_example :
    state healthy 1 (begin_provisioning (at failing_store 0) "org" board).1 ≡ unprovisioned
unfolding begin_provisioning write_marker write_temp_file first_failure wipe_cloud_credentials wipe
    remove_file store_credential write_file
begin_provisioning_lossy_example =
    begin_provisioning_lossy (at failing_store 0) "org" board healthy 1 refl refl refl (λ e. cc)

abbrev rejections : ℕ → List (Round (Unit {0}))
rejections zero = []
rejections (suc n) = rejected ∷ rejections n

with_retry_returns_example :
    with_retry provisioning_window 0 retry_initial_backoff (rejections 24) ≢ trying
with_retry_returns_example =
    with_retry_returns provisioning_window 0 (rejections 24) (omega arith) (omega arith)
