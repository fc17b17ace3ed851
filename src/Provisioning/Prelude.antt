-- ===== src/Provisioning/Prelude.antt =====
-- BeginProvisioning: what it commits, what a crash leaves, and what a failure leaves.
use arduino_cloud_connector.Common.{
  ℕ, String, ◌≡◌, refl, ◌⊎◌, inl, inr, true, false, Option, none, some, arith, str_eq, Bool-cases,
  List, [], ◌∷◌, if◌then◌else◌, ◌∙◌, ap, Option-cases,
}
use arduino_cloud_connector.Keystore.{
  device_cert, device_id_file, organization_id_file, wipe_cloud_credentials,
}
use arduino_cloud_connector.Keystore.Steps.{
  wipe_other, wipe_listed, store_credential-put, store_credential_other, listed,
}
use arduino_cloud_connector.Keystore.Disk as Disk
use Disk.{
  Fs, Files, FileCall, File, Content, text, time_text, remove, create_temp, write, chmod, close,
  rename, put, replace, first_failure, write_file, write_temp_file, remove_file,
}
use arduino_cloud_connector.Provisioning.{
  Env, Service, marker_file, clear_marker, write_marker, begin_provisioning, after_marker,
  store_organization, roll_back,
}

abbrev pub marker_of : ℕ → File
marker_of now = record { content = time_text now; mode = 0o600 }

abbrev pub credentials : List String
credentials = device_cert ∷ device_id_file ∷ organization_id_file ∷ []

-- The two steps after the marker.
abbrev pub credential_steps : Fs → String → Files → Option Disk.Error × Files
credential_steps fs organization_id files =
    store_organization fs organization_id (wipe_cloud_credentials fs files)

pub store_organization_other :
    (fs : Fs) (organization_id other : String) (r : Option Disk.Error × Files)
    → str_eq organization_id_file other ≡ false
    → (store_organization fs organization_id r).1 other ≡ r.1 other
store_organization_other fs organization_id other (some e, files) ne = refl
store_organization_other fs organization_id other (none, files) ne =
    ground (arith, store_credential_other fs organization_id_file organization_id other files ne)

credential_steps_other :
    (fs : Fs) (organization_id other : String) (files : Files)
    → listed other credentials ≡ false
    → (credential_steps fs organization_id files).1 other ≡ files other
unfolding wipe_cloud_credentials
credential_steps_other fs organization_id other files l =
    store_organization_other fs organization_id other (wipe_cloud_credentials fs files)
      (ground arith)
    ∙ wipe_other fs credentials other files l

-- The marker is written whole, or nothing is.
pub write_marker_cases :
    (fs : Fs) (now : ℕ) (files : Files)
    → ((write_marker fs now files).0 ≡ none)
        × ((write_marker fs now files).1 ≡ put marker_file (some (marker_of now)) files)
      ⊎ ((e : Disk.Error) × (write_marker fs now files ≡ (some e, files)))
unfolding write_marker write_temp_file first_failure
write_marker_cases fs now files =
    let p =
      first_failure fs (
        create_temp marker_file
        ∷ write marker_file
        ∷ close marker_file
        ∷ rename marker_file
        ∷ []) in
    elim (Option-cases p) [
      | inl e ↦ inl (rw e refl, rw e refl)
      | inr (c, e) ↦ inr (Disk.failed c, rw e refl)
    ]

roll_back_kept :
    (fs : Fs) (r : Option Disk.Error × Files) (marker : File)
    → fs (remove marker_file) ≡ true
    → r.1 marker_file ≡ some marker
    → (roll_back fs r).1 marker_file ≡ some marker
unfolding clear_marker remove_file
roll_back_kept fs (none, files) marker crash h = h
roll_back_kept fs (some e, files) marker crash h = rw crash h

after_marker_kept :
    (fs : Fs) (organization_id : String) (r : Option Disk.Error × Files) (marker : File)
    → fs (remove marker_file) ≡ true
    → r.0 ≡ none
    → r.1 marker_file ≡ some marker
    → (after_marker fs organization_id r).1 marker_file ≡ some marker
after_marker_kept fs organization_id (some e, files) marker crash n h = ground arith
after_marker_kept fs organization_id (none, files) marker crash n h =
    roll_back_kept fs (credential_steps fs organization_id files) marker crash
      (credential_steps_other fs organization_id marker_file files refl ∙ h)

-- If BeginProvisioning is stopped at any call, which here is any choice of failing calls in which
-- the marker's removal fails, then the marker is on the disk or no file has changed: the
-- credentials are never gone without a marker.
pub begin_provisioning_crash :
    (env : Env) (organization_id : String) (s : Service)
    → env.fs (remove marker_file) ≡ true
    → ((begin_provisioning env organization_id s).1.files marker_file ≡ some (marker_of env.now))
      ⊎ ((begin_provisioning env organization_id s).1.files ≡ s.files)
unfolding begin_provisioning
begin_provisioning_crash env organization_id s crash =
    elim (write_marker_cases env.fs env.now s.files) [
      | inl (e, p) ↦ inl (
          after_marker_kept env.fs organization_id (write_marker env.fs env.now s.files)
            (marker_of env.now) crash e (rw p refl))
      | inr (e, p) ↦ inr (rw p refl)
    ]

-- What a prelude that returned no error has committed.
abbrev pub Committed : ℕ → String → Files → Files → Type 0
Committed now organization_id before after =
    (after marker_file ≡ some (marker_of now))
    × (after device_cert ≡ none)
    × (after device_id_file ≡ none)
    × (after organization_id_file ≡ (
        if str_eq organization_id ""
        then none
        else some (record { content = text organization_id; mode = 0o644 })))
    × ((other : String)
        → str_eq marker_file other ≡ false
        → listed other credentials ≡ false
        → after other ≡ before other)

store_organization_at :
    (fs : Fs) (organization_id : String) (r : Option Disk.Error × Files)
    → (store_organization fs organization_id r).0 ≡ none
    → (r.0 ≡ none)
      × ((store_organization fs organization_id r).1 organization_id_file ≡ (
          if str_eq organization_id ""
          then r.1 organization_id_file
          else some (record { content = text organization_id; mode = 0o644 })))
store_organization_at fs organization_id (some e, files) h = (h, ground arith)
store_organization_at fs organization_id (none, files) h =
    elim (Bool-cases (str_eq organization_id "")) [
      | inl e ↦ (refl, rw e refl)
      | inr e ↦ (
        refl,
        rw e (
            ap (λ (f : Files). f organization_id_file)
              (store_credential-put fs organization_id_file organization_id files (rw e at h))),
      )
    ]

roll_back-none :
    (fs : Fs) (r : Option Disk.Error × Files)
    → (roll_back fs r).0 ≡ none
    → (r.0 ≡ none) × (roll_back fs r ≡ r)
roll_back-none fs (none, files) h = (refl, refl)
roll_back-none fs (some e, files) h = ground arith

-- The steps that returned no error, after any start.
pub credential_steps_lem :
    (fs : Fs) (organization_id : String) (files : Files)
    → (credential_steps fs organization_id files).0 ≡ none
    → let after = (credential_steps fs organization_id files).1 in
      (after device_cert ≡ none)
      × (after device_id_file ≡ none)
      × (after organization_id_file ≡ (
          if str_eq organization_id ""
          then none
          else some (record { content = text organization_id; mode = 0o644 })))
unfolding wipe_cloud_credentials
credential_steps_lem fs organization_id files h =
    let wiped = wipe_cloud_credentials fs files in
    let stored = store_organization_at fs organization_id wiped h in
    (
      store_organization_other fs organization_id device_cert wiped refl
          ∙ wipe_listed fs credentials device_cert files stored.0 refl,
      store_organization_other fs organization_id device_id_file wiped refl
          ∙ wipe_listed fs credentials device_id_file files stored.0 refl,
      rw (wipe_listed fs credentials organization_id_file files stored.0 refl) at stored.1,
    )

after_marker-Committed :
    (fs : Fs) (now : ℕ) (organization_id : String) (r : Option Disk.Error × Files) (before : Files)
    → r.1 ≡ put marker_file (some (marker_of now)) before
    → (after_marker fs organization_id r).0 ≡ none
    → Committed now organization_id before (after_marker fs organization_id r).1
after_marker-Committed fs now organization_id (some e, files) before p h = ground arith
after_marker-Committed fs now organization_id (none, files) before p h =
    let steps = credential_steps fs organization_id files in
    let kept = roll_back-none fs steps h in
    let done = credential_steps_lem fs organization_id files kept.0 in
    rw (kept.1) (
      credential_steps_other fs organization_id marker_file files refl ∙ (rw p refl),
      done.0,
      done.1,
      done.2,
      λ other m l. credential_steps_other fs organization_id other files l ∙ (rw (p, m) refl),
    )

-- BeginProvisioning that returns no error leaves the marker with the present, no certificate and no
-- device id, the organization that it was given or none where that is empty, every other file as it
-- was, and no remembered failure.
pub begin_provisioning-Committed :
    (env : Env) (organization_id : String) (s : Service)
    → (begin_provisioning env organization_id s).0 ≡ none
    → Committed env.now organization_id s.files (begin_provisioning env organization_id s).1.files
      × ((begin_provisioning env organization_id s).1.complete_failed ≡ none)
unfolding begin_provisioning
begin_provisioning-Committed env organization_id s h =
    elim (write_marker_cases env.fs env.now s.files) [
      | inl (e, p) ↦ (
        after_marker-Committed env.fs env.now organization_id (write_marker env.fs env.now s.files)
            s.files p h,
        refl,
      )
      | inr (e, p) ↦ ground (arith, rw p at h)
    ]
