-- ===== src/Client.antt =====
-- internal/provisioning-api/client_http.go: one call of the Provisioning API, over a net/http and a
-- JSON encoder that are parameters. The end-to-end path of a certificate is in Client.Retried.
pub mod Answers
mod Examples
pub mod Retried
use arduino_cloud_connector.Common.{
  ℕ, Bool, true, false, not, List, [], ◌∷◌, ◌==◌, if◌then◌else◌, String,
}
use arduino_cloud_connector.Variables.Text.{append}
use arduino_cloud_connector.Certificate.Response.{
  Error, Result, ok, err, Crypto, reconstruct_device_cert,
}

-- A POST.
pub record Request : Type 0 where
  pub url : String
  pub content_type : String
  pub authorization : String
  pub body : List ℕ

-- What io.ReadAll returns: the bytes, and whether it met no error.
pub record Body : Type 0 where
  pub bytes : List ℕ
  pub whole : Bool

-- What http.Client.Do returns, within its timeout.
pub data Reply : Type 0 where
  no_reply : Reply
  response : ℕ → Body → Reply

-- json.Marshal of a csrRequest and of a completeRequest, and which URLs NewRequestWithContext takes.
pub record Http : Type 0 where
  pub csr_json : List ℕ → List ℕ
  pub complete_json : String → List ℕ
  pub takes_url : String → Bool

pub data CallError : Type 0 where
  bad_url post_failed read_failed : CallError
  status : ℕ → List ℕ → CallError
  not_rebuilt : Error → CallError

pub data Returned (A : Type 0) : Type 0 where
  success : A → Returned A
  failure : CallError → Returned A

pub data Step : Type 0 where
  sent : Request → Step
  closed : Step

abbrev pub bearer : String → String → List ℕ → Request
bearer url board_token body = record {
  url = url;
  content_type = "application/json";
  authorization = append "Bearer " board_token;
  body = body;
}

-- The calls that a request leads to: a response's body is closed in the end.
abbrev pub steps_of : Request → Reply → List Step
steps_of req no_reply = sent req ∷ []
steps_of req (response code body) = sent req ∷ closed ∷ []

abbrev pub rebuilt : {A : Type 0} → Result A → Returned A
rebuilt (ok a) = success a
rebuilt (err e) = failure (not_rebuilt e)

-- Sends the request unless its URL is refused.
abbrev pub post :
    {A : Type 0}
    → Http
    → (Request → Reply)
    → (Reply → Returned A)
    → Request
    → Returned A × List Step
post http exchange answer req =
    if http.takes_url req.url
    then (answer (exchange req), steps_of req (exchange req))
    else (failure bad_url, [])

module _ (http : Http) (provisioning_api : String) where
  abbrev pub csr_post : String → List ℕ → Request
  csr_post board_token csr =
      bearer (append provisioning_api "/v1/onboarding/provision/csr") board_token
        (http.csr_json csr)

  abbrev pub complete_post : String → Request
  complete_post board_token =
      bearer (append provisioning_api "/v1/onboarding/provision/complete") board_token
        (http.complete_json "")

  module _ {K E : Type 0} (x : Crypto K E) where
    abbrev pub csr_answer : List ℕ → Reply → Returned (List ℕ × List ℕ)
    csr_answer csr no_reply = failure post_failed
    csr_answer csr (response code body) =
        if not body.whole
        then failure read_failed
        else if not (code == 200)
        then failure (status code body.bytes)
        else rebuilt (reconstruct_device_cert x csr body.bytes)

    unfoldable pub submit_csr :
        (Request → Reply) → String → List ℕ → Returned (List ℕ × List ℕ) × List Step
    submit_csr exchange board_token csr =
        post http exchange (csr_answer csr) (csr_post board_token csr)

  abbrev pub complete_answer : Reply → Returned (Unit {0})
  complete_answer no_reply = failure post_failed
  complete_answer (response code body) =
      if not (code == 200) then failure (status code body.bytes) else success tt

  unfoldable pub complete : (Request → Reply) → String → Returned (Unit {0}) × List Step
  complete exchange board_token = post http exchange complete_answer (complete_post board_token)
