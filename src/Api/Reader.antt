-- ===== src/Api/Reader.antt =====
-- A reader of server-sent events that end their lines with a line feed, as the HTML standard
-- interprets a stream, and what it makes of the frames of writeSSE.
use arduino_cloud_connector.Common.{
  ℕ, ◌<◌, ◌≡◌, ◌≢◌, refl, false, Option, none, some, List, [], ◌∷◌, ◌++◌, length, All, ◌==◌,
  if◌then◌else◌, arith,
}
use mathlib.Core.List.{append_assoc, append-nil}
use arduino_cloud_connector.Variables.{
  EventKind, changed, last_value, last_value_missing, thing_unavailable,
}
use arduino_cloud_connector.Api.Frame.{codes, kind_text, sse_frame}

-- An event as the browser dispatches it: its name and its data.
abbrev pub Dispatched : Type 0
Dispatched = List ℕ × List ℕ

pub record Reader : Type 0 where
  pub line : List ℕ
  pub event : List ℕ
  pub data_buffer : List ℕ
  pub dispatched : List Dispatched

abbrev pub new_reader : Reader
new_reader = record { line = []; event = []; data_buffer = []; dispatched = [] }

-- What follows the prefix.
abbrev pub after : List ℕ → List ℕ → Option (List ℕ)
after [] bs = some bs
after (p ∷ ps) [] = none
after (p ∷ ps) (b ∷ bs) = if p == b then after ps bs else none

abbrev add_data : List ℕ → List ℕ → List ℕ
add_data [] d = d
add_data (b ∷ bs) d = (b ∷ bs) ++ 10 ∷ d

abbrev pub on_data : Option (List ℕ) → Reader → Reader
on_data none r = r
on_data (some d) r = record r { data_buffer = add_data r.data_buffer d }

abbrev pub on_event : Option (List ℕ) → List ℕ → Reader → Reader
on_event none line r = on_data (after (codes "data: ") line) r
on_event (some e) line r = record r { event = e }

-- An event with no data is not dispatched.
abbrev pub dispatch : List ℕ → Reader → Reader
dispatch [] r = record r { event = [] }
dispatch (b ∷ bs) r = record r {
  event = [];
  data_buffer = [];
  dispatched = r.dispatched ++ (r.event, b ∷ bs) ∷ [];
}

abbrev pub read_line : List ℕ → Reader → Reader
read_line [] r = dispatch r.data_buffer r
read_line (b ∷ bs) r = on_event (after (codes "event: ") (b ∷ bs)) (b ∷ bs) r

abbrev pub feed : ℕ → Reader → Reader
feed b r =
    let ended = record (read_line r.line r) { line = [] } in
    if b == 10 then ended else record r { line = r.line ++ b ∷ [] }

unfoldable pub feeds : List ℕ → Reader → Reader
feeds [] r = r
feeds (b ∷ bs) r = feeds bs (feed b r)

pub feeds_nothing : (r : Reader) → feeds [] r ≡ r
unfolding feeds
feeds_nothing r = refl

pub feeds-append : (xs ys : List ℕ) (r : Reader) → feeds (xs ++ ys) r ≡ feeds ys (feeds xs r)
unfolding feeds
feeds-append [] ys r = refl
feeds-append (x ∷ xs) ys r = feeds-append xs ys (feed x r)

abbrev pub IsLine : List ℕ → Type 0
IsLine bs = All (λ b. b ≢ 10) bs

not_line_feed : (b : ℕ) → b ≢ 10 → (b == 10) ≡ false
not_line_feed b h = ground arith

pub feeds-line :
    (bs : List ℕ) (r : Reader) → IsLine bs → feeds bs r ≡ record r { line = r.line ++ bs }
unfolding feeds
feeds-line [] r h = rw (append-nil r.line) refl
feeds-line (b ∷ bs) r h =
    rw
      (
        not_line_feed b h.0,
        feeds-line bs (record r { line = r.line ++ b ∷ [] }) h.1,
        append_assoc r.line (b ∷ []) bs,
      )
      refl

-- A reader between two events.
abbrev pub between : List Dispatched → Reader
between ds = record { line = []; event = []; data_buffer = []; dispatched = ds }

payload_end :
    (event payload : List ℕ) (ds : List Dispatched)
    → IsLine payload
    → 0 < length payload
    → feeds
        (payload ++ codes "\n\n")
        record { line = codes "data: "; event = event; data_buffer = []; dispatched = ds }
      ≡ between (ds ++ (event, payload) ∷ [])
unfolding feeds
payload_end event [] ds h h' = ground arith
payload_end event (b ∷ bs) ds h h' =
    rw
      (
        feeds-append (b ∷ bs) (codes "\n\n")
            record { line = codes "data: "; event = event; data_buffer = []; dispatched = ds },
        feeds-line (b ∷ bs)
            record { line = codes "data: "; event = event; data_buffer = []; dispatched = ds } h,
      )
      refl

pub feeds-sse_frame :
    (kind : EventKind) (payload : List ℕ) (ds : List Dispatched)
    → IsLine payload
    → 0 < length payload
    → feeds (sse_frame kind payload) (between ds) ≡ between (ds ++ (kind_text kind, payload) ∷ [])
unfolding sse_frame feeds
feeds-sse_frame changed payload ds h h' = payload_end (kind_text changed) payload ds h h'
feeds-sse_frame last_value payload ds h h' = payload_end (kind_text last_value) payload ds h h'
feeds-sse_frame last_value_missing payload ds h h' =
    payload_end (kind_text last_value_missing) payload ds h h'
feeds-sse_frame thing_unavailable payload ds h h' =
    payload_end (kind_text thing_unavailable) payload ds h h'
