-- ===== src/Keystore.antt =====
-- internal/keystore/keystore.go and perm.go: the keys and credentials in the data directory.
-- Key generation, x509 and PEM are a parameter.
pub mod Disk
pub mod Steps
pub mod Keys
pub mod Rotation
mod Examples
use arduino_cloud_connector.Common.{
  ℕ, String, Bool, true, false, Option, none, some, List, [], ◌∷◌, ◌%◌, ◌==◌, ◌&&◌, str_eq,
  if◌then◌else◌,
}
use Disk.{
  Content, text, File, Files, FileCall, make_dir, stat, permissions, Fs, Error, not_provisioned,
  failed, missing, invalid_key, unsafe_permissions, crypto_failed, Result, ok, err, exists,
  read_file, remove_file, write_file,
}

abbrev pub provisioning_priv_key : String
provisioning_priv_key = "private_provisioning_key.pem"

abbrev pub provisioning_pub_key : String
provisioning_pub_key = "public_provisioning_key.pem"

abbrev pub cloud_priv_key : String
cloud_priv_key = "private_cloud_key.pem"

abbrev pub device_cert : String
device_cert = "device_cert.pem"

abbrev pub device_id_file : String
device_id_file = "device_id"

abbrev pub organization_id_file : String
organization_id_file = "organization_id"

-- crypto/ecdsa, crypto/x509 and encoding/pem: a new key pair in PEM, the check of a private key's
-- file, and a request signed with it; `none` is an error.
pub record Crypto : Type 0 where
  pub new_key : Option (String × String)
  pub parse_key : Content → Option String
  pub sign_csr : String → String → Option String

-- `return err` where the first step failed, else the next step.
abbrev pub and_then : Option Error × Files → (Files → Option Error × Files) → Option Error × Files
and_then (some e, files) next = (some e, files)
and_then (none, files) next = next files

-- perm.go: a private key must not be readable by others.
abbrev pub checked_mode : String → Option File → Option Error
checked_mode name none = none
checked_mode name (some file) =
    if file.mode % 0o100 == 0 then none else some (unsafe_permissions name)

unfoldable pub check_priv_key_permissions : Fs → String → Files → Option Error
check_priv_key_permissions fs name files =
    if fs (permissions name)
    then some (failed (permissions name))
    else checked_mode name (files name)

abbrev pub write_pub_key : Fs → String → String → Files → Option Error × Files
write_pub_key fs pub_file pem files =
    if str_eq pub_file "" then (none, files) else write_file fs pub_file (text pem) 0o644 files

abbrev pub write_key_pair :
    Fs → Option (String × String) → String → String → Files → Option Error × Files
write_key_pair fs none priv_file pub_file files = (some crypto_failed, files)
write_key_pair fs (some (priv_pem, pub_pem)) priv_file pub_file files =
    and_then (write_file fs priv_file (text priv_pem) 0o600 files)
      (write_pub_key fs pub_file pub_pem)

unfoldable pub ensure_key_pair : Fs → Crypto → String → String → Files → Option Error × Files
ensure_key_pair fs crypto priv_file pub_file files =
    if exists fs priv_file files
    then (none, files)
    else write_key_pair fs crypto.new_key priv_file pub_file files

-- The checks of New, after the two key pairs.
abbrev pub check_keys : Fs → Files → Option Error × Files
check_keys fs files =
    and_then (check_priv_key_permissions fs provisioning_priv_key files, files)
      (λ (files : Files). (check_priv_key_permissions fs cloud_priv_key files, files))

unfoldable pub new : Fs → Crypto → Crypto → Files → Option Error × Files
new fs provisioning cloud files =
    if fs make_dir
    then (some (failed make_dir), files)
    else and_then (ensure_key_pair fs provisioning provisioning_priv_key provisioning_pub_key files)
        (λ (files : Files).
          and_then (ensure_key_pair fs cloud cloud_priv_key "" files) (check_keys fs))

abbrev pub parsed : Option String → String → Result String
parsed none name = err (invalid_key name)
parsed (some key) name = ok key

abbrev pub parse_content : Crypto → String → Result Content → Result String
parse_content crypto name (err e) = err e
parse_content crypto name (ok content) = parsed (crypto.parse_key content) name

unfoldable pub load_priv_key : Fs → Crypto → String → Files → Result String
load_priv_key fs crypto name files =
    parse_content crypto name (read_file fs name (missing name) files)

-- DeviceCertPEM, DeviceID and OrganizationID.
unfoldable pub read_credential : Fs → String → Files → Result Content
read_credential fs name files = read_file fs name not_provisioned files

-- StoreDeviceCert, StoreDeviceID and StoreOrganizationID.
unfoldable pub store_credential : Fs → String → String → Files → Option Error × Files
store_credential fs name value files = write_file fs name (text value) 0o644 files

unfoldable pub is_provisioned : Fs → Files → Bool
is_provisioned fs files = exists fs device_cert files && exists fs device_id_file files

unfoldable pub wipe : Fs → List String → Files → Option Error × Files
wipe fs [] files = (none, files)
wipe fs (name ∷ names) files = and_then (remove_file fs name files) (wipe fs names)

unfoldable pub wipe_cloud_credentials : Fs → Files → Option Error × Files
wipe_cloud_credentials fs files =
    wipe fs (device_cert ∷ device_id_file ∷ organization_id_file ∷ []) files

unfoldable pub rotate_cloud_key : Fs → Crypto → Files → Option Error × Files
rotate_cloud_key fs crypto files =
    and_then (remove_file fs cloud_priv_key files) (λ (files : Files).
      and_then (ensure_key_pair fs crypto cloud_priv_key "" files)
        (λ (files : Files). (check_priv_key_permissions fs cloud_priv_key files, files)))

abbrev pub signed : Crypto → String → Result String → Result String
signed crypto uhwid (err e) = err e
signed crypto uhwid (ok key) = elim (crypto.sign_csr key uhwid) [
  | none ↦ err crypto_failed
  | some csr ↦ ok csr
]

unfoldable pub generate_csr : Fs → Crypto → String → Files → Result String
generate_csr fs crypto uhwid files =
    signed crypto uhwid (load_priv_key fs crypto cloud_priv_key files)
