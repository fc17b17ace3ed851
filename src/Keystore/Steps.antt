-- ===== src/Keystore/Steps.antt =====
-- What a removal, a write and the wipe of the credentials leave in the data directory, whatever
-- calls fail.
use arduino_cloud_connector.Common.{
  ℕ, String, Bool, true, false, Option, none, some, ◌≡◌, refl, List, [], ◌∷◌, str_eq, arith, ◌||◌,
}
use arduino_cloud_connector.Keystore.Disk.{
  Content, text, File, Files, FileCall, Fs, put, replace, remove_file, write_file, create_temp,
  write, chmod, close, rename, first_failure,
}
use arduino_cloud_connector.Keystore.{store_credential, wipe}

pub remove_file_other :
    (fs : Fs) (name other : String) (files : Files)
    → str_eq name other ≡ false
    → (remove_file fs name files).1 other ≡ files other
unfolding remove_file
remove_file_other fs name other files ne = ground arith

pub replace_other :
    (failure : Option FileCall) (name other : String) (file : File) (files : Files)
    → str_eq name other ≡ false
    → (replace failure name file files).1 other ≡ files other
replace_other none name other file files ne = ground arith
replace_other (some c) name other file files ne = refl

-- Whether a name is among those of a wipe.
abbrev pub listed : String → List String → Bool
listed other [] = false
listed other (name ∷ names) = str_eq name other || listed other names

pub wipe_other :
    (fs : Fs) (names : List String) (other : String) (files : Files)
    → listed other names ≡ false
    → (wipe fs names files).1 other ≡ files other
unfolding wipe remove_file
wipe_other fs [] other files l = refl
wipe_other fs (name ∷ names) other files l =
    ground (arith, wipe_other fs names other (put name none files))

-- A wipe that returns no error has removed every name that it lists.
pub wipe_listed :
    (fs : Fs) (names : List String) (other : String) (files : Files)
    → (wipe fs names files).0 ≡ none
    → listed other names ≡ true
    → (wipe fs names files).1 other ≡ none
unfolding wipe remove_file
wipe_listed fs [] other files h l = ground arith
wipe_listed fs (name ∷ names) other files h l = ground (
  arith,
  wipe_listed fs names other (put name none files),
  wipe_other fs names other (put name none files),
)

replace-put :
    (failure : Option FileCall) (name : String) (file : File) (files : Files)
    → (replace failure name file files).0 ≡ none
    → (replace failure name file files).1 ≡ put name (some file) files
replace-put none name file files e = refl
replace-put (some c) name file files e = ground arith

-- A file that is written with no error is there, and the other files are as they were.
pub write_file-put :
    (fs : Fs) (name : String) (content : Content) (mode : ℕ) (files : Files)
    → (write_file fs name content mode files).0 ≡ none
    → (write_file fs name content mode files).1
      ≡ put name (some (record { content = content; mode = mode })) files
unfolding write_file
write_file-put fs name content mode files e =
    replace-put
      (first_failure fs
        (create_temp name ∷ write name ∷ chmod name ∷ close name ∷ rename name ∷ []))
      name (record { content = content; mode = mode }) files e

pub write_file_other :
    (fs : Fs) (name other : String) (content : Content) (mode : ℕ) (files : Files)
    → str_eq name other ≡ false
    → (write_file fs name content mode files).1 other ≡ files other
unfolding write_file
write_file_other fs name other content mode files ne =
    replace_other
      (first_failure fs
        (create_temp name ∷ write name ∷ chmod name ∷ close name ∷ rename name ∷ []))
      name other (record { content = content; mode = mode }) files ne

pub store_credential-put :
    (fs : Fs) (name value : String) (files : Files)
    → (store_credential fs name value files).0 ≡ none
    → (store_credential fs name value files).1
      ≡ put name (some (record { content = text value; mode = 0o644 })) files
unfolding store_credential
store_credential-put fs name value files e = write_file-put fs name (text value) 0o644 files e

pub store_credential_other :
    (fs : Fs) (name value other : String) (files : Files)
    → str_eq name other ≡ false
    → (store_credential fs name value files).1 other ≡ files other
unfolding store_credential
store_credential_other fs name value other files ne =
    write_file_other fs name other (text value) 0o644 files ne
