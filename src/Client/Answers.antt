-- ===== src/Client/Answers.antt =====
-- client_http.go: when SubmitCSR and Complete succeed.
use arduino_cloud_connector.Common.{
  ℕ, ◌≡◌, refl, sym, Bool, true, false, not, List, ◌==◌, if◌then◌else◌, String, arith,
}
use arduino_cloud_connector.Certificate.Response.{Result, ok, err, Crypto, reconstruct_device_cert}
use arduino_cloud_connector.Client.{
  Http, Request, Reply, no_reply, response, CallError, Returned, success, failure, rebuilt, post,
  csr_post, csr_answer, submit_csr,
}

-- A response of status 200 whose body was read to its end.
abbrev pub IsOk : Reply → List ℕ → Type 0
IsOk reply bytes = reply ≡ response 200 record { bytes = bytes; whole = true }

post-success :
    {A : Type 0} (http : Http) (exchange : Request → Reply) (answer : Reply → Returned A)
    (req : Request) (a : A)
    → (post http exchange answer req).0 ≡ success a
    → (http.takes_url req.url ≡ true) × (answer (exchange req) ≡ success a)
post-success http exchange answer req a h = ground arith

rebuilt-success : {A : Type 0} (r : Result A) (a : A) → rebuilt r ≡ success a → r ≡ ok a
rebuilt-success (ok b) a h = ground arith
rebuilt-success (err e) a h = ground arith

ok_response :
    {A : Type 0} (whole : Bool) (code : ℕ) (e e' : CallError) (r : Returned A) (a : A)
    → (if not whole then failure e else if not (code == 200) then failure e' else r) ≡ success a
    → (whole ≡ true) × (code ≡ 200) × (r ≡ success a)
ok_response true code e e' r a h = ground arith
ok_response false code e e' r a h = ground arith

module _ (http : Http) (provisioning_api : String) {K E : Type 0} (x : Crypto K E) where
  csr_answer-success :
      (csr : List ℕ) (reply : Reply) (r : List ℕ × List ℕ)
      → csr_answer http provisioning_api x csr reply ≡ success r
      → (bytes : List ℕ) × IsOk reply bytes × (reconstruct_device_cert x csr bytes ≡ ok r)
  csr_answer-success csr no_reply r h = ground arith
  csr_answer-success csr (response code body) r h =
      let (whole, code_is, e) = ok_response (body.whole) code _ _ _ r h in
      (
        body.bytes,
        rw (code_is, sym whole) refl,
        rebuilt-success (reconstruct_device_cert x csr body.bytes) r e,
      )

  pub submit_csr_ok :
      (exchange : Request → Reply) (board_token : String) (csr : List ℕ) (r : List ℕ × List ℕ)
      → (submit_csr http provisioning_api x exchange board_token csr).0 ≡ success r
      → (bytes : List ℕ) × IsOk (exchange (csr_post http provisioning_api board_token csr)) bytes
        × (reconstruct_device_cert x csr bytes ≡ ok r)
  unfolding submit_csr
  submit_csr_ok exchange board_token csr r h =
      csr_answer-success csr _ r
        (post-success http exchange (csr_answer http provisioning_api x csr)
          (csr_post http provisioning_api board_token csr) r h).1
