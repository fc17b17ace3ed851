-- ===== src/Provisioning/Activated.antt =====
-- An attempt that succeeds has activated the certificate that is on the disk.
use arduino_cloud_connector.Common.{
  ℕ, String, ◌≡◌, refl, inl, inr, true, false, Option, none, some, arith, Bool-cases,
}
use arduino_cloud_connector.Keystore.{
  device_cert, device_id_file, is_provisioned, read_credential, store_credential, generate_csr,
  rotate_cloud_key,
}
use arduino_cloud_connector.Keystore.Steps.{store_credential-put}
use arduino_cloud_connector.Keystore.Disk as Disk
use Disk.{
  Fs, Files, stat, read, remove, Content, text, Result, ok, err, File, is_there, put, write_file,
  first_failure, replace, remove_file, FileCall, create_temp, write, chmod, close, rename,
}
use arduino_cloud_connector.Provisioning.Retry.{
  Retried, done, gave_up, trying, AttemptError, retry_window_expired, cancelled, no_marker, disk,
}
use arduino_cloud_connector.Provisioning.{
  Env, Calls, Service, Outcome, succeeded, still_trying, failed, run_attempt, complete_phase,
  complete_outcome, complete_with_retry, marker_file, clear_marker, resume, with_device_id,
  with_token, board_token, marker_deadline, with_files, store_issued, with_csr, after_csr,
  submit_csr_with_retry, request_certificate,
}

-- What success means: provision/complete was answered, the credentials are there, the marker is gone.
abbrev pub Active : Env → ℕ → Calls → Option AttemptError → Service → Type 0
Active env deadline calls failure after =
    (complete_with_retry deadline calls ≡ done tt)
    × (is_there (after.files device_cert) ≡ true)
    × (is_there (after.files device_id_file) ≡ true)
    × (env.fs (remove marker_file) ≡ false → after.files marker_file ≡ none)
    × (after.complete_failed ≡ failure)

abbrev pub Succeeds : (Service → Type 0) → Outcome × Service → Type 0
Succeeds P (succeeded, after) = P after
Succeeds P (still_trying, after) = Unit
Succeeds P (failed e, after) = Unit

complete_outcome-Active :
    (env : Env) (deadline : ℕ) (calls : Calls) (r : Retried (Unit {0})) (s : Service)
    → complete_with_retry deadline calls ≡ r
    → is_there (s.files device_cert) ≡ true
    → is_there (s.files device_id_file) ≡ true
    → Succeeds (Active env deadline calls s.complete_failed) (complete_outcome env r s)
unfolding clear_marker remove_file
complete_outcome-Active env deadline calls trying s e c d = tt
complete_outcome-Active env deadline calls (done tt) s e c d =
    (e, ground arith, ground arith, λ f. ground arith, refl)
complete_outcome-Active env deadline calls (gave_up retry_window_expired) s e c d = tt
complete_outcome-Active env deadline calls (gave_up no_marker) s e c d = tt
complete_outcome-Active env deadline calls (gave_up cancelled) s e c d = tt
complete_outcome-Active env deadline calls (gave_up (disk e)) s h c d = tt

complete_phase-Active :
    (env : Env) (deadline : ℕ) (calls : Calls) (s : Service)
    → is_there (s.files device_cert) ≡ true
    → is_there (s.files device_id_file) ≡ true
    → Succeeds (Active env deadline calls s.complete_failed) (complete_phase env deadline calls s)
unfolding complete_phase
complete_phase-Active env deadline calls s c d =
    complete_outcome-Active env deadline calls (complete_with_retry deadline calls) s refl c d

with_token-Succeeds :
    (P : Service → Type 0) (token : Result String) (s : Service)
    (next : Service → Outcome × Service)
    → Succeeds P (next s)
    → Succeeds P (with_token token s next)
with_token-Succeeds P (err e) s next h = tt
with_token-Succeeds P (ok token) s next h = h

with_device_id-Succeeds :
    (P : Service → Type 0) (env : Env) (deadline : ℕ) (calls : Calls) (s : Service)
    (id : Result Content)
    → Succeeds P (complete_phase env deadline calls s)
    → Succeeds P (with_device_id env deadline calls s id)
with_device_id-Succeeds P env deadline calls s (err e) h = tt
with_device_id-Succeeds P env deadline calls s (ok id) h =
    with_token-Succeeds P (board_token env s.files) s (complete_phase env deadline calls) h

is_provisioned_there :
    (fs : Fs) (files : Files)
    → is_provisioned fs files ≡ true
    → (is_there (files device_cert) ≡ true) × (is_there (files device_id_file) ≡ true)
unfolding is_provisioned
is_provisioned_there fs files p = (ground arith, ground arith)

resume-Active :
    (env : Env) (deadline : ℕ) (calls : Calls) (s : Service)
    → is_provisioned env.fs s.files ≡ true
    → Succeeds (Active env deadline calls s.complete_failed) (resume env deadline calls s)
unfolding resume
resume-Active env deadline calls s p =
    let there = is_provisioned_there env.fs s.files p in
    with_device_id-Succeeds (Active env deadline calls s.complete_failed) env deadline calls s
      (read_credential env.fs device_id_file s.files)
      (complete_phase-Active env deadline calls s there.0 there.1)

with_files-Succeeds :
    (P : Service → Type 0) (r : Option Disk.Error × Files) (s : Service)
    (next : Service → Outcome × Service)
    → (r.0 ≡ none → Succeeds P (next (record s { files = r.1 })))
    → Succeeds P (with_files r s next)
with_files-Succeeds P (none, files) s next h = h refl
with_files-Succeeds P (some e, files) s next h = tt

store_issued-Active :
    (env : Env) (deadline : ℕ) (calls : Calls) (id cert : String) (s : Service)
    → Succeeds
        (Active env deadline calls s.complete_failed)
        (store_issued env deadline calls id cert s)
unfolding store_issued
store_issued-Active env deadline calls id cert s =
    with_files-Succeeds (Active env deadline calls s.complete_failed)
      (store_credential env.fs device_cert cert s.files) s
      (λ (s : Service).
        with_files (store_credential env.fs device_id_file id s.files) s
          (complete_phase env deadline calls))
      (λ stored.
        with_files-Succeeds (Active env deadline calls s.complete_failed)
          (store_credential env.fs device_id_file id
            (store_credential env.fs device_cert cert s.files).1)
          (record s { files = (store_credential env.fs device_cert cert s.files).1 })
          (complete_phase env deadline calls)
          (λ named.
            complete_phase-Active env deadline calls
              (record s {
                files =
                    (store_credential env.fs device_id_file id
                      (store_credential env.fs device_cert cert s.files).1).1;
              })
              (rw
                (
                  store_credential-put env.fs device_id_file id
                      (store_credential env.fs device_cert cert s.files).1 named,
                  store_credential-put env.fs device_cert cert s.files stored,
                )
                refl)
              (rw
                (store_credential-put env.fs device_id_file id
                  (store_credential env.fs device_cert cert s.files).1 named)
                refl)))

after_csr-Active :
    (env : Env) (deadline : ℕ) (calls : Calls) (r : Retried (String × String)) (s : Service)
    → Succeeds (Active env deadline calls s.complete_failed) (after_csr env deadline calls r s)
after_csr-Active env deadline calls trying s = tt
after_csr-Active env deadline calls (gave_up e) s = tt
after_csr-Active env deadline calls (done (id, cert)) s =
    store_issued-Active env deadline calls id cert s

with_csr-Active :
    (env : Env) (deadline : ℕ) (calls : Calls) (csr : Result String) (s : Service)
    → Succeeds (Active env deadline calls s.complete_failed) (with_csr env deadline calls csr s)
with_csr-Active env deadline calls (err e) s = tt
with_csr-Active env deadline calls (ok csr) s =
    with_token-Succeeds (Active env deadline calls s.complete_failed) (board_token env s.files) s
      (after_csr env deadline calls (submit_csr_with_retry deadline calls))
      (after_csr-Active env deadline calls (submit_csr_with_retry deadline calls) s)

request_certificate-Active :
    (env : Env) (deadline : ℕ) (calls : Calls) (s : Service)
    → Succeeds
        (Active env deadline calls s.complete_failed)
        (request_certificate env deadline calls s)
unfolding request_certificate
request_certificate-Active env deadline calls s =
    with_files-Succeeds (Active env deadline calls s.complete_failed)
      (rotate_cloud_key env.fs env.crypto s.files) s
      (λ (s : Service).
        with_csr env deadline calls (generate_csr env.fs env.crypto env.uhwid s.files) s)
      (λ rotated.
        with_csr-Active env deadline calls
          (generate_csr env.fs env.crypto env.uhwid (rotate_cloud_key env.fs env.crypto s.files).1)
          (record s { files = (rotate_cloud_key env.fs env.crypto s.files).1 }))

pub run_attempt-Active :
    (env : Env) (deadline : ℕ) (calls : Calls) (s : Service)
    → marker_deadline env.fs s.files ≡ some deadline
    → Succeeds (Active env deadline calls s.complete_failed) (run_attempt env calls s)
unfolding run_attempt
run_attempt-Active env deadline calls s m = elim (Bool-cases (is_provisioned env.fs s.files)) [
  | inl p ↦ rw (m, p) (resume-Active env deadline calls s p)
  | inr p ↦ rw (m, p) (request_certificate-Active env deadline calls s)
]
