-- ===== src/Api.antt =====
-- internal/api/handlers/handlers.go: the REST handlers that answer once; the stream of events is in
-- Api.Stream, the router's CORS middleware in Api.Cors. The JSON decoder's result is an input, and
-- of an error that a body reports only its message is kept.
pub mod Frame
pub mod Reader
mod Partial
pub mod Stream
mod Delivered
mod Cors
mod Listed
mod Released
mod Answers
mod Examples
use arduino_cloud_connector.Common.{
  ℕ, String, Bool, true, false, Option, none, some, not, if◌then◌else◌,
}
use arduino_cloud_connector.Provisioning as Provisioning
use arduino_cloud_connector.Provisioning.{Env}
use arduino_cloud_connector.Cloud as Cloud
use arduino_cloud_connector.Daemon.{
  Daemon, State, Snapshot, Reply, busy, replied, is_nil, reprovision,
}
use arduino_cloud_connector.Daemon.Outbound.{Outbound, enqueue_variable}
use arduino_cloud_connector.Api.Stream.{client_id}

pub record CloudStatus : Type 0 where
  pub state : Cloud.State
  pub thing_id : String

pub record StatusResponse : Type 0 where
  pub provisioning : Provisioning.State
  pub daemon : State
  pub cloud : Option CloudStatus
  pub device_id : String
  pub organization_id : String

pub record IdentityResponse : Type 0 where
  pub board_token : String
  pub public_key_pem : String
  pub uhwid : String

pub data Body : Type 0 where
  no_body accepted : Body
  error version : String → Body
  identity : IdentityResponse → Body
  status : StatusResponse → Body

pub record Response : Type 0 where
  pub code : ℕ
  pub body : Body

abbrev pub write_json : ℕ → Body → Response
write_json code body = record { code = code; body = body }

abbrev pub write_error : ℕ → String → Response
write_error code message = write_json code (error message)

-- What json.NewDecoder(r.Body).Decode gives; an empty body is io.EOF.
pub data Decoded (A : Type 0) : Type 0 where
  decoded : A → Decoded A
  eof malformed : Decoded A

abbrev pub handle_version : String → Response
handle_version text = write_json 200 (version text)

abbrev pub handle_health : Response
handle_health = write_json 200 no_body

-- The identity service: the key and the PEM text may be missing, the signing may fail.
abbrev pub with_public_key : String → String → Option String → Response
with_public_key uhwid token none = write_error 500 "cannot load public key"
with_public_key uhwid token (some pem) =
    write_json 200 (identity record { board_token = token; public_key_pem = pem; uhwid = uhwid })

abbrev pub with_token : String → Option String → Option String → Response
with_token uhwid pem none = write_error 500 "cannot generate board token"
with_token uhwid pem (some token) = with_public_key uhwid token pem

unfoldable pub handle_identity :
    {K : Type 0} → Option K → (K → Option String) → Option String → String → Response
handle_identity none board_token public_key_pem uhwid =
    write_error 500 "cannot load provisioning key"
handle_identity (some key) board_token public_key_pem uhwid =
    with_token uhwid public_key_pem (board_token key)

-- A field of type string that stays empty on an error.
abbrev pub or_empty : Option String → String
or_empty none = ""
or_empty (some s) = s

abbrev pub cloud_status : Option Cloud.Snapshot → Option CloudStatus
cloud_status none = none
cloud_status (some c) = some record { state = c.state; thing_id = c.thing_id }

unfoldable pub handle_status :
    Snapshot → Provisioning.State → Option String → Option String → Response
handle_status snap prov device_id organization_id = write_json 200 (
    status record {
      provisioning = prov;
      daemon = snap.state;
      cloud = cloud_status snap.cloud;
      device_id = or_empty device_id;
      organization_id = or_empty organization_id;
    })

-- The answer to what Reprovision returned; `gone` is its ctx.Done taken before the reply.
abbrev pub start_response : Bool → Reply → Response
start_response gone busy = write_error 409 "provisioning already in progress"
start_response gone (replied e) =
    if gone
    then write_error 500 "provisioning prelude failed"
    else if is_nil e
    then write_json 202 accepted
    else write_error 500 "provisioning prelude failed"

abbrev pub start_with : Env → Bool → String → Daemon → Response × Daemon
start_with env gone organization_id d =
    let (answer, d') = reprovision env organization_id d in (start_response gone answer, d')

unfoldable pub handle_provisioning_start : Env → Decoded String → Bool → Daemon → Response × Daemon
handle_provisioning_start env malformed gone d = (write_error 400 "invalid request body", d)
handle_provisioning_start env eof gone d = start_with env gone "" d
handle_provisioning_start env (decoded organization_id) gone d =
    start_with env gone organization_id d

-- What the select of EnqueueVariable came to.
pub data Sent : Type 0 where
  queued context_done : Sent

abbrev pub send_response : Sent → Response
send_response queued = write_json 204 no_body
send_response context_done = write_error 503 "could not queue value"

-- The call of EnqueueVariable: the answer at once, or the answers to the select in which it waits.
abbrev pub answer_enqueue : {V : Type 0} → Bool × Outbound V → (Sent → Response) × Outbound V
answer_enqueue (true, o) = (send_response, o)
answer_enqueue (false, o) = ((λ _. write_error 409 "thing_unavailable"), o)

-- The body of a PUT carries a value that may be null; io.EOF is an error here.
unfoldable pub handle_variable_send :
    {V : Type 0}
    → Bool
    → ℕ
    → String
    → Decoded (Option V)
    → String
    → Outbound V
    → (Sent → Response) × Outbound V
handle_variable_send steady now name (decoded value) header o =
    answer_enqueue (enqueue_variable steady now name value (client_id header) o)
handle_variable_send steady now name eof header o =
    ((λ _. write_error 400 "invalid request body"), o)
handle_variable_send steady now name malformed header o =
    ((λ _. write_error 400 "invalid request body"), o)
