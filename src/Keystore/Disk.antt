-- ===== src/Keystore/Disk.antt =====
-- The data directory as keystore.go and provisioning.go use it: os.Stat, os.ReadFile, os.Remove and
-- the write of a temporary file that is renamed over its target.
-- A call may fail with an error other than os.ErrNotExist, and then does nothing. An operation of the
-- program makes each call at most once, so which calls fail is a function of the call; a crash
-- is the case in which every call from some point on fails. The temporary files, which have names of
-- their own and are removed again, are left out.
use arduino_cloud_connector.Common.{
  ℕ, String, Bool, true, false, Option, none, some, List, [], ◌∷◌, str_eq, if◌then◌else◌,
}

-- A file's bytes: a text, or the text of a time that time.Parse reads back.
pub data Content : Type 0 where
  text : String → Content
  time_text : ℕ → Content

pub record File : Type 0 where
  pub content : Content
  pub mode : ℕ

abbrev pub Files : Type 0
Files = String → Option File

pub data FileCall : Type 0 where
  make_dir : FileCall
  stat read remove create_temp write chmod close rename permissions : String → FileCall

-- The calls that fail.
abbrev pub Fs : Type 0
Fs = FileCall → Bool

-- ErrNotProvisioned, a failed call, and what the code makes of a file that is there.
pub data Error : Type 0 where
  not_provisioned : Error
  failed : FileCall → Error
  missing invalid_key unsafe_permissions : String → Error
  crypto_failed : Error

pub data Result (A : Type 0) : Type 0 where
  ok : A → Result A
  err : Error → Result A

abbrev pub put : String → Option File → Files → Files
put name file files other = if str_eq name other then file else files other

abbrev pub is_there : Option File → Bool
is_there none = false
is_there (some file) = true

abbrev pub exists : Fs → String → Files → Bool
exists fs name files = if fs (stat name) then false else is_there (files name)

-- The error of a missing file is the caller's.
abbrev pub found : Error → Option File → Result Content
found absent none = err absent
found absent (some file) = ok file.content

abbrev pub read_file : Fs → String → Error → Files → Result Content
read_file fs name absent files =
    if fs (read name) then err (failed (read name)) else found absent (files name)

-- os.Remove, a missing file being no error.
unfoldable pub remove_file : Fs → String → Files → Option Error × Files
remove_file fs name files =
    if fs (remove name) then (some (failed (remove name)), files) else (none, put name none files)

-- The first call that fails.
unfoldable pub first_failure : Fs → List FileCall → Option FileCall
first_failure fs [] = none
first_failure fs (c ∷ cs) = if fs c then some c else first_failure fs cs

abbrev pub replace : Option FileCall → String → File → Files → Option Error × Files
replace none name file files = (none, put name (some file) files)
replace (some c) name file files = (some (failed c), files)

unfoldable pub write_file : Fs → String → Content → ℕ → Files → Option Error × Files
write_file fs name content mode files =
    replace
      (first_failure fs
        (create_temp name ∷ write name ∷ chmod name ∷ close name ∷ rename name ∷ []))
      name (record { content = content; mode = mode }) files

-- The marker of provisioning.go is written without the change of mode: it keeps CreateTemp's 0600.
unfoldable pub write_temp_file : Fs → String → Content → Files → Option Error × Files
write_temp_file fs name content files =
    replace (first_failure fs (create_temp name ∷ write name ∷ close name ∷ rename name ∷ [])) name
      (record { content = content; mode = 0o600 }) files
