-- ===== src/Api/Examples.antt =====
-- The handlers at concrete requests.
use arduino_cloud_connector.Common.{
  ℕ, ◌<◌, ◌≡◌, if◌then◌else◌, refl, String, true, false, Option, none, some, List, [], ◌∷◌, ◌==◌,
  if◌then◌else◌, length, arith,
}
use arduino_cloud_connector.Keystore.Disk.{Fs}
use arduino_cloud_connector.Provisioning.{Env}
use arduino_cloud_connector.Variables.{
  new_registry, update_event, subscribe, first_frame, get_or_create,
}
use arduino_cloud_connector.Common.Dict.{lookup}
use arduino_cloud_connector.Variables.Operations.{setting}
use arduino_cloud_connector.Variables.Wellformed.{new_registry-IsWellformed}
use arduino_cloud_connector.Daemon.{Daemon, new, parked}
use arduino_cloud_connector.Api.{decoded, handle_provisioning_start}
use arduino_cloud_connector.Api.Frame.{codes, whole, cut}
use arduino_cloud_connector.Api.Reader.{IsLine, feeds, new_reader}
use arduino_cloud_connector.Api.Stream.{
  Payload, update, name_only, Turn, event, done, handle_variable_events,
}
use arduino_cloud_connector.Api.Delivered.{IsJson, events-delivered}
use arduino_cloud_connector.Api.Released.{IsReleased, events-IsReleased}
use arduino_cloud_connector.Api.Cors.{Url, allowed_origins, some_lets_through, equal_fold}
use arduino_cloud_connector.Api.Answers.{StartAnswers, provisioning_start-StartAnswers}

-- An encoding that writes `{}` for every payload with an event that is not the number 3, which it
-- cannot encode.
abbrev encode_update : Option ℕ → Option (List ℕ)
encode_update none = some (codes "{}")
encode_update (some n) = if n == 3 then none else some (codes "{}")

abbrev marshal : Payload ℕ → Option (List ℕ)
marshal (update e) = encode_update e.value
marshal (name_only name) = some (codes "{\"name\":1}")

encode_update-is : (v : Option ℕ) (d : List ℕ) → encode_update v ≡ some d → d ≡ codes "{}"
encode_update-is v d h = ground arith

some_is : {A : Type 0} (a b : A) → some a ≡ some b → b ≡ a
some_is a b h = ground arith

marshal-IsLine : (p : Payload ℕ) (d : List ℕ) → marshal p ≡ some d → IsLine d × (0 < length d)
marshal-IsLine (update e) d h = rw (encode_update-is e.value d h) (ground arith, omega arith)
marshal-IsLine (name_only name) d h =
    rw (some_is (codes "{\"name\":1}") d h) (ground arith, omega arith)

marshal-IsJson : IsJson marshal
marshal-IsJson = record {
  one_line = λ p d h. (marshal-IsLine p d h).0;
  not_empty = λ p d h. (marshal-IsLine p d h).1;
}

-- The second write of an event fails after four bytes.
abbrev turns : List (Turn ℕ)
turns =
    event (update_event "x" (some 5) 7) whole
    ∷ event (update_event "x" (some 6) 8) (cut 4)
    ∷ event (update_event "x" (some 7) 9) whole
    ∷ done
    ∷ []

two_frames :
    (let ((ended, wire), r') =
        handle_variable_events marshal true whole turns [] "x" "app" true new_registry in
      (feeds wire new_reader).dispatched)
    ≡ (codes "lastvalue_missing", codes "{\"name\":1}") ∷ (codes "update", codes "{}") ∷ []
unfolding subscribe first_frame get_or_create lookup new_registry handle_variable_events
two_frames = events-delivered marshal true whole turns [] "x" "app" true new_registry marshal-IsJson

events-IsReleased_example :
    IsReleased 0
      (handle_variable_events marshal true whole turns
        (setting 5 "x" (some 5) 5 "" ∷ [])
        "x"
        "app"
        true
        new_registry).1
unfolding new_registry
events-IsReleased_example =
    events-IsReleased marshal true whole turns (setting 5 "x" (some 5) 5 "" ∷ []) "x" "app" true
      (λ id. "") new_registry (new_registry-IsWellformed (λ id. ""))

abbrev healthy : Fs
healthy c = false

abbrev env : Env
env = record {
  fs = healthy;
  crypto = record { new_key = none; parse_key = λ c. none; sign_csr = λ key uhwid. none };
  sign_token = λ key. none;
  uhwid = "uhwid";
  now = 5;
}

abbrev waiting_board : Daemon
waiting_board = record (new (record { files = λ name. none; complete_failed = none })) {
  place = parked;
}

provisioning_start-StartAnswers_example :
    StartAnswers env false waiting_board
      (some "org")
      (handle_provisioning_start env (decoded "org") false waiting_board)
provisioning_start-StartAnswers_example =
    provisioning_start-StartAnswers env (decoded "org") false waiting_board

-- A parser that takes every text for http://localhost:5173.
abbrev parse_local : String → Option Url
parse_local text = some record {
  scheme = "http";
  opaque = "";
  has_user = false;
  path = "";
  raw_query = "";
  fragment = "";
  hostname = "LocalHost";
  port = "5173";
}

abbrev local_origin : String
local_origin = "http://LocalHost:5173"

-- A host that begins with an allowed one.
refused :
    some_lets_through
      (record {
        scheme = "http";
        opaque = "";
        has_user = false;
        path = "";
        raw_query = "";
        fragment = "";
        hostname = "localhost.attacker.com";
        port = "";
      })
      allowed_origins
    ≡ false
unfolding some_lets_through equal_fold
refused = refl
