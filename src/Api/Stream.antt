-- ===== src/Api/Stream.antt =====
-- internal/api/handlers/handlers.go: HandleVariableEvents and clientID. What its select meets, and
-- the fate of each Write, are inputs; json.Marshal of a payload is a parameter.
use arduino_cloud_connector.Common.{
  ℕ, ◌+◌, String, Bool, true, false, not, Option, none, some, List, [], ◌∷◌, ltb, if◌then◌else◌,
}
use Prim.Native.Char.{code}
use arduino_cloud_connector.Variables.{
  EventKind, last_value, UpdateEvent, Registry, subscribe, unsubscribe,
}
use arduino_cloud_connector.Variables.Operations.{Operation, operate_all}
use arduino_cloud_connector.Api.Frame.{SseError, Writing, write_sse}

abbrev pub max_client_id_len : ℕ
max_client_id_len = 128

-- The length of a text in bytes, in UTF-8.
abbrev pub rune_length : ℕ → ℕ
rune_length c = if ltb c 0x80 then 1 else if ltb c 0x800 then 2 else if ltb c 0x10000 then 3 else 4

abbrev pub byte_length : String → ℕ
byte_length String.[] = 0
byte_length (String.◌∷◌ c s) = rune_length (code c) + byte_length s

-- The value of the header X-App-Client-ID; an absent one reads as "".
unfoldable pub client_id : String → String
client_id header = if ltb max_client_id_len (byte_length header) then "" else header

-- What is encoded: the event, or a map with the name alone.
pub data Payload (V : Type 0) : Type 0 where
  update : UpdateEvent V → Payload V
  name_only : String → Payload V

-- What the select of the loop meets: the request's context is done, Events is closed, or an event.
pub data Turn (V : Type 0) : Type 0 where
  done closed : Turn V
  event : UpdateEvent V → Writing → Turn V

-- How the handler ended; `streaming` is a handler that still waits in its select, and
-- `error_body` one that answered with a status and a JSON body, writeError, in place of the stream.
pub data Ended : Type 0 where
  streaming cancelled events_closed : Ended
  error_body : ℕ → String → String → Ended
  failed : SseError → Ended

abbrev pub after_write : Option SseError × List ℕ → (List ℕ → Ended × List ℕ) → Ended × List ℕ
after_write (none, wire) go_on = go_on wire
after_write (some e, wire) go_on = (failed e, wire)

abbrev pub is_last_value_kind : EventKind → Bool
is_last_value_kind last_value = true
is_last_value_kind _ = false

module _ {V : Type 0} (marshal : Payload V → Option (List ℕ)) where
  unfoldable pub event_loop : List (Turn V) → List ℕ → Ended × List ℕ
  event_loop [] wire = (streaming, wire)
  event_loop (done ∷ turns) wire = (cancelled, wire)
  event_loop (closed ∷ turns) wire = (events_closed, wire)
  event_loop (event evt w ∷ turns) wire =
      after_write (write_sse w evt.kind (marshal (update evt)) wire) (event_loop turns)

  -- The payload of the first frame: one without a value carries the name alone.
  abbrev pub first_payload : String → UpdateEvent V → Payload V
  first_payload name first = if is_last_value_kind first.kind then update first else name_only name

  -- The body of the handler after Subscribe; the bytes are those of the stream.
  unfoldable pub stream : Bool → Writing → List (Turn V) → String → UpdateEvent V → Ended × List ℕ
  stream is_flusher w turns name first =
      if not is_flusher
      then (error_body 500 "streaming unsupported" "response writer is not a flusher", [])
      else after_write (write_sse w first.kind (marshal (first_payload name first)) [])
          (event_loop turns)

  -- The whole handler, with what others do to the registry between its Subscribe and Unsubscribe.
  unfoldable pub handle_variable_events :
      Bool
      → Writing
      → List (Turn V)
      → List (Operation V)
      → String
      → String
      → Bool
      → Registry V
      → (Ended × List ℕ) × Registry V
  handle_variable_events is_flusher w turns others name header cloud_steady r =
      let (first, id, r') = subscribe name (client_id header) cloud_steady r in
      (stream is_flusher w turns name first, unsubscribe name id (operate_all others r'))
