-- ===== src/Api/Partial.antt =====
-- A frame of writeSSE that was written in part: a reader of server-sent events dispatches nothing of it.
use arduino_cloud_connector.Common.{
  ℕ, zero, suc, length-append, ◌≡◌, refl, ◌∙◌, ap, sym, Option, none, some, List, [], ◌∷◌, ◌++◌,
  length, take, drop, ◌==◌, Bool-cases, inl, inr, arith,
}
use mathlib.Core.List.{append_assoc, append-nil}
use arduino_cloud_connector.Variables.{
  EventKind, changed, last_value, last_value_missing, thing_unavailable,
}
use arduino_cloud_connector.Api.Frame.{codes, kind_text, sse_frame, initial}
use arduino_cloud_connector.Api.Reader.{
  Dispatched, Reader, after, on_data, on_event, dispatch, read_line, feed, feeds, feeds-append,
  IsLine, feeds-line, between,
}

-- Reading only ever adds to what was dispatched.
abbrev Adds : Reader → Reader → Type 0
Adds r r' = (more : List Dispatched) × (r'.dispatched ≡ r.dispatched ++ more)

dispatch-Adds : (data_buffer : List ℕ) (r : Reader) → Adds r (dispatch data_buffer r)
dispatch-Adds [] r = ([], sym (append-nil r.dispatched))
dispatch-Adds (b ∷ bs) r = ((r.event, b ∷ bs) ∷ [], refl)

on_data-Adds : (found : Option (List ℕ)) (r : Reader) → Adds r (on_data found r)
on_data-Adds none r = ([], sym (append-nil r.dispatched))
on_data-Adds (some d) r = ([], sym (append-nil r.dispatched))

on_event-Adds :
    (found : Option (List ℕ)) (line : List ℕ) (r : Reader) → Adds r (on_event found line r)
on_event-Adds none line r = on_data-Adds (after (codes "data: ") line) r
on_event-Adds (some e) line r = ([], sym (append-nil r.dispatched))

read_line-Adds : (line : List ℕ) (r : Reader) → Adds r (read_line line r)
read_line-Adds [] r = dispatch-Adds r.data_buffer r
read_line-Adds (b ∷ bs) r = on_event-Adds (after (codes "event: ") (b ∷ bs)) (b ∷ bs) r

feed-Adds : (b : ℕ) (r : Reader) → Adds r (feed b r)
feed-Adds b r = elim (Bool-cases (b == 10)) [
  | inl ends ↦ rw ends (read_line-Adds r.line r)
  | inr goes_on ↦ rw goes_on ([], sym (append-nil r.dispatched))
]

feeds-Adds : (bs : List ℕ) (r : Reader) → Adds r (feeds bs r)
unfolding feeds
feeds-Adds [] r = ([], sym (append-nil r.dispatched))
feeds-Adds (b ∷ bs) r =
    let (m, now) = feed-Adds b r in
    let (n, later) = feeds-Adds bs (feed b r) in
    (m ++ n, later ∙ ap (λ (d : List Dispatched). d ++ n) now ∙ append_assoc r.dispatched m n)

initial-append : (bs : List ℕ) (c d : ℕ) → initial (bs ++ c ∷ d ∷ []) ≡ bs ++ c ∷ []
initial-append [] c d = refl
initial-append (b ∷ []) c d = refl
initial-append (b ∷ e ∷ bs) c d = ap (λ (r : List ℕ). b ∷ r) (initial-append (e ∷ bs) c d)

payload_middle :
    (event payload : List ℕ) (ds : List Dispatched)
    → IsLine payload
    → (feeds (payload ++ 10 ∷ []) record {
      line = codes "data: ";
      event = event;
      data_buffer = [];
      dispatched = ds;
    }).dispatched
      ≡ ds
unfolding feeds
payload_middle event payload ds h =
    rw
      (
        feeds-append payload (10 ∷ [])
            record { line = codes "data: "; event = event; data_buffer = []; dispatched = ds },
        feeds-line payload
            record { line = codes "data: "; event = event; data_buffer = []; dispatched = ds } h,
      )
      refl

frame_middle :
    (kind : EventKind) (payload : List ℕ) (ds : List Dispatched)
    → IsLine payload
    → (feeds (initial (sse_frame kind payload)) (between ds)).dispatched ≡ ds
unfolding sse_frame feeds
frame_middle kind payload ds h =
    rw (initial-append (((codes "event: " ++ kind_text kind) ++ codes "\ndata: ") ++ payload) 10 10)
      (middle_of kind)
  where
    middle_of :
        (k : EventKind)
        → (feeds
            ((((codes "event: " ++ kind_text k) ++ codes "\ndata: ") ++ payload) ++ 10 ∷ [])
            (between ds)).dispatched
          ≡ ds
    middle_of changed = payload_middle (kind_text changed) payload ds h
    middle_of last_value = payload_middle (kind_text last_value) payload ds h
    middle_of last_value_missing = payload_middle (kind_text last_value_missing) payload ds h
    middle_of thing_unavailable = payload_middle (kind_text thing_unavailable) payload ds h

take-drop : (n : ℕ) (bs : List ℕ) → take n bs ++ drop n bs ≡ bs
take-drop zero bs = refl
take-drop (suc n) [] = refl
take-drop (suc n) (b ∷ bs) = ap (λ (r : List ℕ). b ∷ r) (take-drop n bs)

nothing_more : {A : Type 0} (xs ys zs : List A) → xs ≡ (xs ++ ys) ++ zs → ys ≡ []
nothing_more xs [] zs h = refl
nothing_more xs (y ∷ ys) zs h =
    let absurd : ⊥ =
      omega (arith, ap length h, length-append (xs ++ y ∷ ys) zs, length-append xs (y ∷ ys)) in
    elim absurd [ ]

-- A part of a frame that stops before its last byte dispatches nothing.
pub feeds-part :
    (kind : EventKind) (payload : List ℕ) (n : ℕ) (ds : List Dispatched)
    → IsLine payload
    → (feeds (take n (initial (sse_frame kind payload))) (between ds)).dispatched ≡ ds
feeds-part kind payload n ds h =
    let whole = initial (sse_frame kind payload) in
    let (m, part) = feeds-Adds (take n whole) (between ds) in
    let (rest, all) = feeds-Adds (drop n whole) (feeds (take n whole) (between ds)) in
    let same : ds ≡ (ds ++ m) ++ rest =
      sym (frame_middle kind payload ds h)
      ∙ ap (λ (bs : List ℕ). (feeds bs (between ds)).dispatched) (sym (take-drop n whole))
      ∙ ap (λ (r : Reader). r.dispatched) (feeds-append (take n whole) (drop n whole) (between ds))
      ∙ all
      ∙ ap (λ (d : List Dispatched). d ++ rest) part in
    part ∙ ap (λ (d : List Dispatched). ds ++ d) (nothing_more ds m rest same) ∙ append-nil ds
