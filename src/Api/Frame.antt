-- ===== src/Api/Frame.antt =====
-- internal/api/handlers/handlers.go: writeSSE. A frame and its payload are lists of bytes; the
-- encoding of the payload is json.Marshal's, the fate of w.Write an input.
use arduino_cloud_connector.Common.{
  ℕ, ◌*◌, String, Option, none, some, List, [], ◌∷◌, ◌++◌, length, ltb, take, if◌then◌else◌,
}
use Prim.Native.Char.{code}
use arduino_cloud_connector.Variables.{
  EventKind, changed, last_value, last_value_missing, thing_unavailable,
}

-- The code points of a text: its bytes, if it is ASCII.
abbrev pub codes : String → List ℕ
codes String.[] = []
codes (String.◌∷◌ c s) = code c ∷ codes s

-- The names of the kinds, from internal/variables/variables.go.
abbrev pub kind_text : EventKind → List ℕ
kind_text changed = codes "update"
kind_text last_value = codes "lastvalue"
kind_text last_value_missing = codes "lastvalue_missing"
kind_text thing_unavailable = codes "thing_unavailable"

-- 1 MiB
abbrev pub max_sse_payload : ℕ
max_sse_payload = 1024 * 1024

pub data SseError : Type 0 where
  marshal_payload write_frame : SseError
  payload_too_large : ℕ → SseError

-- A call of Write takes the whole slice, or it fails after a part of it.
pub data Writing : Type 0 where
  whole : Writing
  cut : ℕ → Writing

-- All but the last.
abbrev pub initial : List ℕ → List ℕ
initial [] = []
initial (b ∷ []) = []
initial (b ∷ c ∷ bs) = b ∷ initial (c ∷ bs)

abbrev pub written : Writing → List ℕ → List ℕ
written whole frame = frame
written (cut n) frame = take n (initial frame)

abbrev pub write_error : Writing → Option SseError
write_error whole = none
write_error (cut n) = some write_frame

unfoldable pub sse_frame : EventKind → List ℕ → List ℕ
sse_frame event payload =
    (((codes "event: " ++ kind_text event) ++ codes "\ndata: ") ++ payload) ++ codes "\n\n"

-- The error, and what the writer has after the call.
unfoldable pub write_sse : Writing → EventKind → Option (List ℕ) → List ℕ → Option SseError × List ℕ
write_sse w event none wire = (some marshal_payload, wire)
write_sse w event (some payload) wire =
    if ltb max_sse_payload (length payload)
    then (some (payload_too_large (length payload)), wire)
    else (write_error w, wire ++ written w (sse_frame event payload))
