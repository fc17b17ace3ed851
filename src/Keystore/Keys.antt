-- ===== src/Keystore/Keys.antt =====
-- New: the private keys that it leaves.
use arduino_cloud_connector.Common.{
  String, ◌≡◌, refl, true, false, ◌%◌, Option, none, some, arith, str_eq, ◌∙◌, Bool-cases, inl, inr,
  eq_refl, Option-cases,
}
use arduino_cloud_connector.Keystore.Disk.{
  Fs, Files, File, text, Error, is_there, make_dir, exists, write_file,
}
use arduino_cloud_connector.Keystore.Steps.{write_file-put, write_file_other}
use arduino_cloud_connector.Keystore.{
  Crypto, and_then, ensure_key_pair, write_key_pair, write_pub_key, check_keys,
  check_priv_key_permissions, new, provisioning_priv_key, provisioning_pub_key, cloud_priv_key,
}

-- Two steps leave a file alone that neither changes.
and_then_same :
    (r : Option Error × Files) (next : Files → Option Error × Files) (other : String)
    → ((files : Files) → (next files).1 other ≡ files other)
    → (and_then r next).1 other ≡ r.1 other
and_then_same (some e, files) next other h = refl
and_then_same (none, files) next other h = h files

-- Both steps succeeded.
pub and_then-none :
    (r : Option Error × Files) (next : Files → Option Error × Files)
    → (and_then r next).0 ≡ none
    → (r.0 ≡ none) × ((next r.1).0 ≡ none) × ((and_then r next).1 ≡ (next r.1).1)
and_then-none (some e, files) next h = ground arith
and_then-none (none, files) next h = (refl, h, refl)

write_pub_key_other :
    (fs : Fs) (pub_file pem other : String) (files : Files)
    → str_eq pub_file other ≡ false
    → (write_pub_key fs pub_file pem files).1 other ≡ files other
write_pub_key_other fs pub_file pem other files ne =
    ground (arith, write_file_other fs pub_file other (text pem) 0o644 files ne)

pub ensure_key_pair_other :
    (fs : Fs) (crypto : Crypto) (priv_file pub_file other : String) (files : Files)
    → str_eq priv_file other ≡ false
    → str_eq pub_file other ≡ false
    → (ensure_key_pair fs crypto priv_file pub_file files).1 other ≡ files other
unfolding ensure_key_pair
ensure_key_pair_other fs crypto priv_file pub_file other files p q =
    elim (Bool-cases (exists fs priv_file files)) [
      | inl e ↦ rw e refl
      | inr e ↦ rw e (elim (Option-cases crypto.new_key) [
        | inl k ↦ rw k refl
        | inr ((priv_pem, pub_pem), k) ↦ rw k (
            and_then_same (write_file fs priv_file (text priv_pem) 0o600 files)
              (write_pub_key fs pub_file pub_pem) other
              (λ (files : Files). write_pub_key_other fs pub_file pub_pem other files q)
            ∙ write_file_other fs priv_file other (text priv_pem) 0o600 files p)
      ])
    ]

write_key_pair_there :
    (fs : Fs) (key : Option (String × String)) (priv_file pub_file : String) (files : Files)
    → str_eq pub_file priv_file ≡ false
    → (write_key_pair fs key priv_file pub_file files).0 ≡ none
    → is_there ((write_key_pair fs key priv_file pub_file files).1 priv_file) ≡ true
write_key_pair_there fs none priv_file pub_file files d h = ground arith
write_key_pair_there fs (some (priv_pem, pub_pem)) priv_file pub_file files d h =
    let written = write_file fs priv_file (text priv_pem) 0o600 files in
    let steps = and_then-none written (write_pub_key fs pub_file pub_pem) h in
    ground (
      arith,
      steps.2,
      write_pub_key_other fs pub_file pub_pem priv_file written.1 d,
      write_file-put fs priv_file (text priv_pem) 0o600 files steps.0,
      eq_refl priv_file,
    )

-- With no error, the private key is there.
ensure_key_pair_there :
    (fs : Fs) (crypto : Crypto) (priv_file pub_file : String) (files : Files)
    → str_eq pub_file priv_file ≡ false
    → (ensure_key_pair fs crypto priv_file pub_file files).0 ≡ none
    → is_there ((ensure_key_pair fs crypto priv_file pub_file files).1 priv_file) ≡ true
unfolding ensure_key_pair
ensure_key_pair_there fs crypto priv_file pub_file files d h =
    elim (Bool-cases (exists fs priv_file files)) [
      | inl e ↦ rw e (ground arith)
      | inr e ↦ rw e (write_key_pair_there fs crypto.new_key priv_file pub_file files d (rw e at h))
    ]

-- A key file that os.Stat finds is kept.
ensure_key_pair_kept :
    (fs : Fs) (crypto : Crypto) (priv_file pub_file : String) (files : Files)
    → exists fs priv_file files ≡ true
    → ensure_key_pair fs crypto priv_file pub_file files ≡ (none, files)
unfolding ensure_key_pair
ensure_key_pair_kept fs crypto priv_file pub_file files e = rw e refl

-- A private key that only its owner can read.
abbrev pub Private : Option File → Type 0
Private none = ⊥
Private (some file) = file.mode % 0o100 ≡ 0

checked_mode-Private :
    (fs : Fs) (name : String) (files : Files)
    → check_priv_key_permissions fs name files ≡ none
    → is_there (files name) ≡ true
    → Private (files name)
unfolding check_priv_key_permissions
checked_mode-Private fs name files h e = elim (Option-cases (files name)) [
  | inl n ↦ ground arith
  | inr (file, n) ↦ rw n (ground arith)
]

check_keys-Private :
    (fs : Fs) (files : Files)
    → (check_keys fs files).0 ≡ none
    → is_there (files provisioning_priv_key) ≡ true
    → is_there (files cloud_priv_key) ≡ true
    → Private (files provisioning_priv_key)
      × Private (files cloud_priv_key)
      × ((check_keys fs files).1 ≡ files)
check_keys-Private fs files h p c =
    let steps =
      and_then-none (check_priv_key_permissions fs provisioning_priv_key files, files)
        (λ (files : Files). (check_priv_key_permissions fs cloud_priv_key files, files)) h in
    (
      checked_mode-Private fs provisioning_priv_key files steps.0 p,
      checked_mode-Private fs cloud_priv_key files steps.1 c,
      steps.2,
    )

-- If New returns no error, both private keys are on the disk with a mode that gives group and
-- others nothing, and every other file with a non-empty name, but for the provisioning public key,
-- is as it was.
pub new-Private :
    (fs : Fs) (provisioning cloud : Crypto) (files : Files)
    → (new fs provisioning cloud files).0 ≡ none
    → let after = (new fs provisioning cloud files).1 in
      Private (after provisioning_priv_key)
      × Private (after cloud_priv_key)
      × ((other : String)
          → str_eq provisioning_priv_key other ≡ false
          → str_eq provisioning_pub_key other ≡ false
          → str_eq cloud_priv_key other ≡ false
          → str_eq "" other ≡ false
          → after other ≡ files other)
unfolding new
new-Private fs provisioning cloud files h =
    let first = ensure_key_pair fs provisioning provisioning_priv_key provisioning_pub_key files in
    let second = ensure_key_pair fs cloud cloud_priv_key "" first.1 in
    elim (Bool-cases (fs make_dir)) [
      | inl e ↦ ground (arith, rw e at h)
      | inr e ↦
          let steps =
            and_then-none first
              (λ (files : Files).
                and_then (ensure_key_pair fs cloud cloud_priv_key "" files) (check_keys fs))
              (rw e at h) in
          let more = and_then-none second (check_keys fs) steps.1 in
          let there =
            ensure_key_pair_other fs cloud cloud_priv_key "" provisioning_priv_key first.1 refl
              refl in
          let keys =
            check_keys-Private fs second.1 more.1
              (rw there (
                ensure_key_pair_there fs provisioning provisioning_priv_key provisioning_pub_key
                  files refl steps.0))
              (ensure_key_pair_there fs cloud cloud_priv_key "" first.1 refl more.0) in
          rw (e, steps.2, more.2, keys.2)
            (
              keys.0,
              keys.1,
              λ other a b c d.
                  ensure_key_pair_other fs cloud cloud_priv_key "" other first.1 c d
                  ∙ ensure_key_pair_other fs provisioning provisioning_priv_key provisioning_pub_key
                      other files a b,
            )
    ]
