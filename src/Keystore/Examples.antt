-- ===== src/Keystore/Examples.antt =====
-- The theorems on the keys at an empty data directory.
use arduino_cloud_connector.Common.{String, ◌≡◌, refl, false, none, some, str_eq}
use arduino_cloud_connector.Keystore.Disk.{Fs, Files, write_file, first_failure}
use arduino_cloud_connector.Keystore.Keys.{Private, new-Private}
use arduino_cloud_connector.Keystore.{
  Crypto, new, ensure_key_pair, check_priv_key_permissions, cloud_priv_key, provisioning_priv_key,
  provisioning_pub_key,
}

abbrev healthy : Fs
healthy c = false

abbrev empty : Files
empty name = none

abbrev crypto : Crypto
crypto = record {
  new_key = some ("private", "public");
  parse_key = λ c. none;
  sign_csr = λ key uhwid. none;
}

new-Private_example :
    Private ((new healthy crypto crypto empty).1 provisioning_priv_key)
    × Private ((new healthy crypto crypto empty).1 cloud_priv_key)
    × ((other : String)
        → str_eq provisioning_priv_key other ≡ false
        → str_eq provisioning_pub_key other ≡ false
        → str_eq cloud_priv_key other ≡ false
        → str_eq "" other ≡ false
        → (new healthy crypto crypto empty).1 other ≡ none)
unfolding new ensure_key_pair check_priv_key_permissions write_file first_failure
new-Private_example = new-Private healthy crypto crypto empty refl
