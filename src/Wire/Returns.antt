-- ===== src/Wire/Returns.antt =====
-- cbor.go: Decode returns on every input, and never reads past its end.
use arduino_cloud_connector.Common.{
  ℕ, zero, suc, ◌/◌, ◌%◌, ◌&&◌, ◌≤◌, ◌<◌, ◌≡◌, ◌≢◌, refl, Bool, true, false, not, List, [], ◌∷◌,
  length, drop, ltb, ◌==◌, if◌then◌else◌, arith,
}
use arduino_cloud_connector.Wire.Cbor.{Floats, Value, max_int64}
use arduino_cloud_connector.Wire.Decode.{
  Error, truncated_argument, truncated_float, Read, got, failed, panicked, stuck, then_read,
  fixed_argument, decode_arg, is_hashable, decode_items, decode_pairs, decode_content,
  decode_simple, decode_value, whole, decode,
}

-- The read came to an end, with at most n bytes left.
abbrev Ends : {A : Type 0} → ℕ → Read A → Type 0
Ends n (got a rest) = length rest ≤ n
Ends n (failed e) = Unit
Ends n panicked = Unit
Ends n stuck = ⊥

then_read-Ends :
    {A B : Type 0} (m n : ℕ) (r : Read A) (f : A → List ℕ → Read B)
    → Ends m r
    → ((a : A) (rest : List ℕ) → length rest ≤ m → Ends n (f a rest))
    → Ends n (then_read r f)
then_read-Ends m n (got a rest) f h h' = h' a rest h
then_read-Ends m n (failed e) f h h' = tt
then_read-Ends m n panicked f h h' = tt
then_read-Ends m n stuck f h h' = h

length-drop : (n : ℕ) (bs : List ℕ) → length (drop n bs) ≤ length bs
length-drop zero bs = omega arith
length-drop (suc n) [] = omega arith
length-drop (suc n) (b ∷ bs) = omega (arith, length-drop n bs)

if-Ends :
    {A : Type 0} (n : ℕ) (t : Bool) (r r' : Read A)
    → Ends n r
    → Ends n r'
    → Ends n (if t then r else r')
if-Ends n true r r' h h' = h
if-Ends n false r r' h h' = h'

fixed_argument-Ends :
    (e : Error) (w : ℕ) (rest : List ℕ) → Ends (length rest) (fixed_argument e w rest)
unfolding fixed_argument
fixed_argument-Ends e w rest =
    if-Ends (length rest) (ltb (length rest) w) _ _ tt (length-drop w rest)

decode_arg-Ends : (ai : ℕ) (rest : List ℕ) → Ends (length rest) (decode_arg ai rest)
unfolding decode_arg
decode_arg-Ends ai rest =
    let fixed = λ (w : ℕ). fixed_argument-Ends truncated_argument w rest in
    if-Ends (length rest) (ltb ai 24) _ _ (omega arith) (
      if-Ends (length rest) (ai == 24) _ _ (fixed 1) (
        if-Ends (length rest) (ai == 25) _ _ (fixed 2)
          (if-Ends (length rest) (ai == 26) _ _ (fixed 4) (fixed 8))))

-- A reader that comes to an end on every input of at most n bytes.
abbrev EndsBelow : {A : Type 0} → ℕ → (List ℕ → Read A) → Type 0
EndsBelow n read = (bs : List ℕ) → length bs ≤ n → Ends (length bs) (read bs)

weaken : {A : Type 0} (m n : ℕ) (r : Read A) → m ≤ n → Ends m r → Ends n r
weaken m n (got a rest) h e = omega arith
weaken m n (failed e') h e = tt
weaken m n panicked h e = tt
weaken m n stuck h e = e

module _ {F : Type 0} where
  decode_items-Ends :
      (n : ℕ) (read : List ℕ → Read (Value F)) (k : ℕ)
      → EndsBelow n read
      → EndsBelow n (decode_items read k)
  unfolding decode_items
  decode_items-Ends n read zero reads rest h = omega arith
  decode_items-Ends n read (suc k) reads rest h =
      then_read-Ends (length rest) (length rest) (read rest) _ (reads rest h) (λ v rest' le.
        then_read-Ends (length rest) (length rest) (decode_items read k rest') _
          (weaken (length rest') (length rest) (decode_items read k rest') le
            (decode_items-Ends n read k reads rest' (omega arith)))
          (λ vs rest'' le'. le'))

  decode_pairs-Ends :
      (n : ℕ) (read : List ℕ → Read (Value F)) (k : ℕ)
      → EndsBelow n read
      → EndsBelow n (decode_pairs read k)
  unfolding decode_pairs
  decode_pairs-Ends n read zero reads rest h = omega arith
  decode_pairs-Ends n read (suc k) reads rest h =
      then_read-Ends (length rest) (length rest) (read rest) _ (reads rest h) (λ key rest' le.
        then_read-Ends (length rest') (length rest) (read rest') _ (reads rest' (omega arith))
          (λ v rest'' le'.
            if-Ends (length rest) (is_hashable key) _ _
              (then_read-Ends (length rest'') (length rest) (decode_pairs read k rest'') _
                (decode_pairs-Ends n read k reads rest'' (omega arith))
                (λ ps rest''' le''. omega arith))
              tt))

  decode_content-Ends :
      (n : ℕ) (read : List ℕ → Read (Value F)) (major arg : ℕ)
      → EndsBelow n read
      → EndsBelow n (decode_content read major arg)
  unfolding decode_content
  decode_content-Ends n read major arg reads rest h =
      let l = length rest in
      if-Ends l (major == 0) _ _ (omega arith) (
        if-Ends l (major == 1) _ _ (if-Ends l (ltb max_int64 arg) _ _ tt (omega arith)) (
          if-Ends l (major == 2) _ _ (if-Ends l (ltb l arg) _ _ tt (length-drop arg rest)) (
            if-Ends l (major == 3) _ _ (if-Ends l (ltb l arg) _ _ tt (length-drop arg rest)) (
              if-Ends l (major == 4) _ _
                (if-Ends l (ltb l arg) _ _ tt (
                  then_read-Ends l l (decode_items read arg rest) _
                    (decode_items-Ends n read arg reads rest h) (λ vs rest' le. le)))
                (if-Ends l (major == 5) _ _
                  (if-Ends l (ltb l arg) _ _ tt (
                    then_read-Ends l l (decode_pairs read arg rest) _
                      (decode_pairs-Ends n read arg reads rest h) (λ ps rest' le. le)))
                  (then_read-Ends l l (read rest) _ (reads rest h) (λ v rest' le. le)))))))

module _ {F : Type 0} (fl : Floats F) where
  decode_simple-Ends : (ai : ℕ) (rest : List ℕ) → Ends (length rest) (decode_simple fl ai rest)
  unfolding decode_simple
  decode_simple-Ends ai rest =
      let l = length rest in
      let fixed = λ (w : ℕ). fixed_argument-Ends truncated_float w rest in
      if-Ends l (ai == 20) _ _ (omega arith) (
        if-Ends l (ai == 21) _ _ (omega arith) (
          if-Ends l (ai == 22) _ _ (omega arith) (
            if-Ends l (ai == 25) _ _ (then_read-Ends l l _ _ (fixed 2) (λ n r le. le)) (
              if-Ends l (ai == 26) _ _ (then_read-Ends l l _ _ (fixed 4) (λ n r le. le))
                (if-Ends l (ai == 27) _ _ (then_read-Ends l l _ _ (fixed 8) (λ n r le. le)) tt)))))

  decode_value-Ends :
      (fuel : ℕ) (bs : List ℕ) → length bs < fuel → Ends (length bs) (decode_value fl fuel bs)
  unfolding decode_value
  decode_value-Ends zero bs h = ground arith
  decode_value-Ends (suc fuel) [] h = tt
  decode_value-Ends (suc fuel) (b ∷ rest) h =
      let l = length rest in
      if-Ends (suc l) (b % 32 == 31) _ _ tt (
        if-Ends (suc l) (ltb 27 (b % 32) && not (b / 32 == 7)) _ _ tt (
          if-Ends (suc l) (b / 32 == 7) _ _
            (weaken l (suc l) (decode_simple fl (b % 32) rest) (omega arith)
              (decode_simple-Ends (b % 32) rest))
            (then_read-Ends l (suc l) (decode_arg (b % 32) rest) _ (decode_arg-Ends (b % 32) rest)
              (λ arg rest' le.
                weaken (length rest') (suc l)
                  (decode_content (decode_value fl fuel) (b / 32) arg rest') (omega arith)
                  (decode_content-Ends l (decode_value fl fuel) (b / 32) arg
                    (λ bs short. decode_value-Ends fuel bs (omega arith)) rest' le)))))

  whole-stuck : (r : Read (Value F)) → whole fl r ≡ stuck → r ≡ stuck
  whole-stuck (got v []) h = ground arith
  whole-stuck (got v (b ∷ bs)) h = ground arith
  whole-stuck (failed e) h = ground arith
  whole-stuck panicked h = ground arith
  whole-stuck stuck h = refl

  Ends-stuck : (n : ℕ) (r : Read (Value F)) → Ends n r → r ≢ stuck
  Ends-stuck n r h e = rw e at h

  -- On every input Decode ends, with a value, an error or a panic of the runtime: as many levels of
  -- recursion as the input has bytes, and one more, are enough.
  pub decode-returns : (input : List ℕ) → decode fl input ≢ stuck
  unfolding decode
  decode-returns input h =
      Ends-stuck (length input) (decode_value fl (suc (length input)) input)
        (decode_value-Ends (suc (length input)) input (omega arith))
        (whole-stuck (decode_value fl (suc (length input)) input) h)
