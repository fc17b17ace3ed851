-- ===== src/Keystore/Rotation.antt =====
-- RotateCloudKey: the key that it leaves.
use arduino_cloud_connector.Common.{
  String, ◌≡◌, refl, false, none, some, arith, ◌∙◌, inl, inr, Option-cases,
}
use arduino_cloud_connector.Keystore.Disk.{Fs, Files, text, exists, put, write_file, remove_file}
use arduino_cloud_connector.Keystore.Steps.{write_file-put}
use arduino_cloud_connector.Keystore.{
  Crypto, and_then, ensure_key_pair, write_pub_key, check_priv_key_permissions, rotate_cloud_key,
  cloud_priv_key,
}
use arduino_cloud_connector.Keystore.Keys.{and_then-none}

remove_file_gone :
    (fs : Fs) (name : String) (files : Files)
    → (remove_file fs name files).0 ≡ none
    → (other : String) → (remove_file fs name files).1 other ≡ put name none files other
unfolding remove_file
remove_file_gone fs name files h other = ground arith

-- With no key file there, a new key is written.
fresh_key :
    (fs : Fs) (crypto : Crypto) (files : Files)
    → files cloud_priv_key ≡ none
    → (ensure_key_pair fs crypto cloud_priv_key "" files).0 ≡ none
    → (priv_pem : String) × (pub_pem : String) × (crypto.new_key ≡ some (priv_pem, pub_pem))
      × ((ensure_key_pair fs crypto cloud_priv_key "" files).1
          ≡ put cloud_priv_key (some (record { content = text priv_pem; mode = 0o600 })) files)
unfolding ensure_key_pair
fresh_key fs crypto files n h =
    let gone : exists fs cloud_priv_key files ≡ false = ground arith in
    elim (Option-cases crypto.new_key) [
      | inl k ↦ ground (arith, rw (gone, k) at h)
      | inr ((priv_pem, pub_pem), k) ↦
          let written = write_file fs cloud_priv_key (text priv_pem) 0o600 files in
          let steps = and_then-none written (write_pub_key fs "" pub_pem) (rw (gone, k) at h) in
          (
            priv_pem,
            pub_pem,
            k,
            rw (gone, k)
                (steps.2 ∙ write_file-put fs cloud_priv_key (text priv_pem) 0o600 files steps.0),
          )
    ]

-- If RotateCloudKey returns no error, the cloud key on the disk is the newly generated one with
-- mode 0600, and every other file is as it was.
pub rotate_cloud_key_fresh :
    (fs : Fs) (crypto : Crypto) (files : Files)
    → (rotate_cloud_key fs crypto files).0 ≡ none
    → (priv_pem : String) × (pub_pem : String) × (crypto.new_key ≡ some (priv_pem, pub_pem))
      × ((other : String)
          → (rotate_cloud_key fs crypto files).1 other
            ≡ put cloud_priv_key
                (some (record { content = text priv_pem; mode = 0o600 }))
                files
                other)
unfolding rotate_cloud_key
rotate_cloud_key_fresh fs crypto files h =
    let removed = remove_file fs cloud_priv_key files in
    let ensured = ensure_key_pair fs crypto cloud_priv_key "" removed.1 in
    let steps =
      and_then-none removed
        (λ (files : Files).
          and_then (ensure_key_pair fs crypto cloud_priv_key "" files)
            (λ (files : Files). (check_priv_key_permissions fs cloud_priv_key files, files)))
        h in
    let more =
      and_then-none ensured
        (λ (files : Files). (check_priv_key_permissions fs cloud_priv_key files, files)) steps.1 in
    let gone = remove_file_gone fs cloud_priv_key files steps.0 in
    let key = fresh_key fs crypto removed.1 (gone cloud_priv_key ∙ refl) more.0 in
    (key.0, key.1, key.2, λ other. rw (steps.2, more.2, key.3) (rw (gone other) (ground arith)))
