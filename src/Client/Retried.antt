-- ===== src/Client/Retried.antt =====
-- submitCSRWithRetry of provisioning.go over the HTTP client: where its certificate comes from.
use arduino_cloud_connector.Common.{
  ℕ, ◌+◌, ◌≡◌, Bool, Option, none, some, List, [], ◌∷◌, map, arith, Any, ◌⊎◌, inl, inr, String,
}
use arduino_cloud_connector.Provisioning.Retry.{
  Round, Retried, done, gave_up, trying, round, on_error, or_else, with_retry, next_backoff,
  retry_initial_backoff,
}
use arduino_cloud_connector.Certificate.{CertParams, build_cert}
use arduino_cloud_connector.Certificate.Response.{
  ok, Crypto, public_key_from_csr, reconstruct_device_cert,
}
use arduino_cloud_connector.Certificate.Accepted.{HasLengths, reconstruct_ok}
use arduino_cloud_connector.Client.{
  Http, Request, Reply, Returned, success, failure, csr_post, submit_csr,
}
use arduino_cloud_connector.Client.Answers.{IsOk, submit_csr_ok}

-- What a round of the loop meets: the exchange with the server, and what Retry.Round names.
pub record Attempt : Type 0 where
  pub exchange : Request → Reply
  pub took : ℕ
  pub cancelled_call : Bool
  pub cancelled_wait : Bool
  pub late : ℕ

-- err == nil
abbrev pub answer_of : {A : Type 0} → Returned A → Option A
answer_of (success a) = some a
answer_of (failure e) = none

answer_of-some : {A : Type 0} (r : Returned A) (a : A) → answer_of r ≡ some a → r ≡ success a
answer_of-some (success b) a h = ground arith
answer_of-some (failure e) a h = ground arith

module _ {A : Type 0} where
  on_error-done : (deadline now : ℕ) (r : Round A) (a : A) → on_error deadline now r ≡ done a → ⊥
  on_error-done deadline now r a h = ground arith

  round-done :
      (deadline now : ℕ) (r : Round A) (a : A) → round deadline now r ≡ done a → r.answer ≡ some a
  unfolding round
  round-done deadline now r a h = ground arith

  or_else-done : (r r' : Retried A) (a : A) → or_else r r' ≡ done a → (r ≡ done a) ⊎ (r' ≡ done a)
  or_else-done trying r' a h = inr h
  or_else-done (done b) r' a h = inl h
  or_else-done (gave_up e) r' a h = inl h

  -- The loop returns what one of its calls did.
  with_retry-done :
      (deadline now backoff : ℕ) (rs : List (Round A)) (a : A)
      → with_retry deadline now backoff rs ≡ done a
      → Any (λ (r : Round A). r.answer ≡ some a) rs
  unfolding with_retry
  with_retry-done deadline now backoff [] a h = ground arith
  with_retry-done deadline now backoff (r ∷ rs) a h =
      elim (or_else-done (round deadline (now + r.took) r)
        (with_retry deadline (now + r.took + backoff + r.late) (next_backoff backoff) rs) a h) [
          | inl e ↦ inl (round-done deadline (now + r.took) r a e)
          | inr e ↦ inr (
              with_retry-done deadline (now + r.took + backoff + r.late) (next_backoff backoff) rs a
                e)
        ]

Any-map :
    {A B : Type 0} (f : A → B) (P : B → Type 0) (Q : A → Type 0) (xs : List A)
    → ((x : A) → P (f x) → Q x)
    → Any P (map f xs)
    → Any Q xs
Any-map f P Q [] h any = elim any [ ]
Any-map f P Q (x ∷ xs) h (inl p) = inl (h x p)
Any-map f P Q (x ∷ xs) h (inr any) = inr (Any-map f P Q xs h any)

module _ (http : Http) (provisioning_api : String) {K E : Type 0} (x : Crypto K E) where
  abbrev pub csr_round : String → List ℕ → Attempt → Round (List ℕ × List ℕ)
  csr_round board_token csr call = record {
    took = call.took;
    answer = answer_of (submit_csr http provisioning_api x call.exchange board_token csr).0;
    cancelled_call = call.cancelled_call;
    cancelled_wait = call.cancelled_wait;
    late = call.late;
  }

  -- The server answered this call with 200 and a body that is the certificate's.
  abbrev pub Carries : String → List ℕ → List ℕ → List ℕ → Attempt → Type 0
  Carries board_token csr device_id pem call =
      (bytes : List ℕ) × IsOk (call.exchange (csr_post http provisioning_api board_token csr)) bytes
      × (reconstruct_device_cert x csr bytes ≡ ok (device_id, pem))
      × (p : CertParams) × (p.device_id ≡ device_id)
      × (pem ≡ x.encode_pem (build_cert p))
      × (public_key_from_csr x csr ≡ ok p.public_key)
      × HasLengths p

  -- Whatever the server, the network and the context do, if submitCSRWithRetry over the HTTP client
  -- returns a device id and a certificate, then one of its calls was answered with status 200 and a
  -- body, read to its end, of which reconstructDeviceCert made just these: the certificate is the
  -- one that buildCert encodes for that device id, the key of the request, an authority key id, a
  -- serial number and a signature of the documented lengths.
  pub submit_csr-Carries :
      (deadline start : ℕ) (board_token : String) (csr device_id pem : List ℕ)
      (calls : List Attempt)
      → with_retry deadline start retry_initial_backoff (map (csr_round board_token csr) calls)
        ≡ done (device_id, pem)
      → Any (Carries board_token csr device_id pem) calls
  submit_csr-Carries deadline start board_token csr device_id pem calls h =
      Any-map (csr_round board_token csr) (λ r. r.answer ≡ some (device_id, pem))
        (Carries board_token csr device_id pem) calls
        (λ call e.
          let (bytes, is_ok, rebuilt) =
            submit_csr_ok http provisioning_api x call.exchange board_token csr (device_id, pem)
              (answer_of-some _ _ e) in
          let (p, device_is, pem_is, key_is, lengths) =
            reconstruct_ok x csr bytes device_id pem rebuilt in
          (bytes, is_ok, rebuilt, p, device_is, pem_is, key_is, lengths))
        (with_retry-done deadline start retry_initial_backoff
          (map (csr_round board_token csr) calls) (device_id, pem) h)
