-- ===== src/Api/Delivered.antt =====
-- HandleVariableEvents: the events that a reader of the stream gets.
use arduino_cloud_connector.Common.{
  ℕ, ◌<◌, ◌≡◌, refl, ◌∙◌, sym, String, Bool, true, false, ap, Option, none, some, List, [], ◌∷◌,
  ◌++◌, length, ltb, Bool-cases, inl, inr, take, if◌then◌else◌,
}
use mathlib.Core.List.{append_assoc, append-nil}
use arduino_cloud_connector.Variables.{EventKind, UpdateEvent, Registry, subscribe}
use arduino_cloud_connector.Variables.Operations.{Operation}
use arduino_cloud_connector.Api.Frame.{
  Writing, whole, cut, kind_text, max_sse_payload, sse_frame, write_sse, initial,
}
use arduino_cloud_connector.Api.Partial.{feeds-part}
use arduino_cloud_connector.Api.Reader.{
  Dispatched, Reader, new_reader, between, feeds, feeds_nothing, feeds-append, feeds-sse_frame,
  IsLine,
}
use arduino_cloud_connector.Api.Stream.{
  Payload, update, Turn, done, closed, event, Ended, after_write, event_loop, first_payload, stream,
  client_id, handle_variable_events,
}

-- What the handler counts on of json.Marshal: its text is not empty and is one line.
pub record IsJson {V : Type 0} (marshal : Payload V → Option (List ℕ)) : Type 0 where
  pub one_line : (p : Payload V) (d : List ℕ) → marshal p ≡ some d → IsLine d
  pub not_empty : (p : Payload V) (d : List ℕ) → marshal p ≡ some d → 0 < length d

-- One frame, and the rest if it was sent as a whole.
abbrev pub sent : Writing → EventKind → Option (List ℕ) → List Dispatched → List Dispatched
sent w kind none rest = []
sent (cut n) kind (some payload) rest = []
sent whole kind (some payload) rest =
    if ltb max_sse_payload (length payload) then [] else (kind_text kind, payload) ∷ rest

module _ {V : Type 0} (marshal : Payload V → Option (List ℕ)) where
  -- The events before the first that is not sent, or before the end of the stream.
  abbrev pub delivered : List (Turn V) → List Dispatched
  delivered [] = []
  delivered (done ∷ turns) = []
  delivered (closed ∷ turns) = []
  delivered (event evt w ∷ turns) = sent w evt.kind (marshal (update evt)) (delivered turns)

-- The loop that goes on sends `rest`.
abbrev GoesOn : (List ℕ → Ended × List ℕ) → List Dispatched → Type 0
GoesOn go_on rest =
    (wire : List ℕ) (ds : List Dispatched)
    → feeds wire new_reader ≡ between ds
    → (feeds (go_on wire).1 new_reader).dispatched ≡ ds ++ rest

after_write-sent :
    (go_on : List ℕ → Ended × List ℕ) (rest : List Dispatched) (w : Writing) (kind : EventKind)
    (payload : Option (List ℕ)) (wire : List ℕ) (ds : List Dispatched)
    → GoesOn go_on rest
    → ((d : List ℕ) → payload ≡ some d → IsLine d)
    → ((d : List ℕ) → payload ≡ some d → 0 < length d)
    → feeds wire new_reader ≡ between ds
    → (feeds (after_write (write_sse w kind payload wire) go_on).1 new_reader).dispatched
      ≡ ds ++ sent w kind payload rest
unfolding write_sse
after_write-sent go_on rest w kind none wire ds loop line full at = rw at (sym (append-nil ds))
after_write-sent go_on rest (cut n) kind (some d) wire ds loop line full at =
    elim (Bool-cases (ltb max_sse_payload (length d))) [
      | inl long ↦ rw (long, at) (sym (append-nil ds))
      | inr short ↦
          rw (short, feeds-append wire (take n (initial (sse_frame kind d))) new_reader, at)
            (feeds-part kind d n ds (line d refl) ∙ sym (append-nil ds))
    ]
after_write-sent go_on rest whole kind (some d) wire ds loop line full at =
    elim (Bool-cases (ltb max_sse_payload (length d))) [
      | inl long ↦ rw (long, at) (sym (append-nil ds))
      | inr short ↦ rw short (
          loop (wire ++ sse_frame kind d) (ds ++ (kind_text kind, d) ∷ []) (
            rw (feeds-append wire (sse_frame kind d) new_reader, at)
              (feeds-sse_frame kind d ds (line d refl) (full d refl)))
          ∙ append_assoc ds ((kind_text kind, d) ∷ []) rest)
    ]

module _ {V : Type 0} (marshal : Payload V → Option (List ℕ)) where
  event_loop-delivered :
      (turns : List (Turn V))
      → IsJson marshal
      → GoesOn (event_loop marshal turns) (delivered marshal turns)
  unfolding event_loop
  event_loop-delivered [] json wire ds at = rw at (sym (append-nil ds))
  event_loop-delivered (done ∷ turns) json wire ds at = rw at (sym (append-nil ds))
  event_loop-delivered (closed ∷ turns) json wire ds at = rw at (sym (append-nil ds))
  event_loop-delivered (event evt w ∷ turns) json wire ds at =
      after_write-sent (event_loop marshal turns) (delivered marshal turns) w evt.kind
        (marshal (update evt)) wire ds (event_loop-delivered turns json)
        (json.one_line (update evt)) (json.not_empty (update evt)) at

  -- On a Flusher, and with payloads of one line that are not empty, a reader of the stream gets the first frame and
  -- then the events in the order in which the handler met them, up to the first that is not sent as a whole.
  pub stream-delivered :
      (w : Writing) (turns : List (Turn V)) (name : String) (first : UpdateEvent V)
      → IsJson marshal
      → (feeds (stream marshal true w turns name first).1 new_reader).dispatched
        ≡ sent w first.kind (marshal (first_payload marshal name first)) (delivered marshal turns)
  unfolding stream
  stream-delivered w turns name first json =
      after_write-sent (event_loop marshal turns) (delivered marshal turns) w first.kind
        (marshal (first_payload marshal name first)) [] [] (event_loop-delivered turns json)
        (json.one_line (first_payload marshal name first))
        (json.not_empty (first_payload marshal name first)) (feeds_nothing new_reader)

  pub events-delivered :
      (is_flusher : Bool) (w : Writing) (turns : List (Turn V)) (others : List (Operation V))
      (name header : String) (cloud_steady : Bool) (r : Registry V)
      → IsJson marshal
      → let first = (subscribe name (client_id header) cloud_steady r).0 in
        let ((ended, wire), r') =
          handle_variable_events marshal is_flusher w turns others name header cloud_steady r in
        (feeds wire new_reader).dispatched ≡ (
          if is_flusher
          then sent w first.kind
              (marshal (first_payload marshal name first))
              (delivered marshal turns)
          else [])
  unfolding handle_variable_events stream
  events-delivered true w turns others name header cloud_steady r json =
      stream-delivered w turns name (subscribe name (client_id header) cloud_steady r).0 json
  events-delivered false w turns others name header cloud_steady r json =
      ap (λ (x : Reader). x.dispatched) (feeds_nothing new_reader)
