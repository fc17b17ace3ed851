-- ===== src/Wire/Contents.antt =====
-- cbor.go: what decodeValue makes of an argument, when the bytes that it announces are there.
use arduino_cloud_connector.Common.{
  ℕ, ◌≤◌, ◌<◌, ◌≡◌, refl, false, List, ◌++◌, length, length-append, take-append, drop-append, ltb,
  arith,
}
use arduino_cloud_connector.Common.Integers.{pos, negsuc}
use arduino_cloud_connector.Wire.Cbor.{
  Value, int64, uint64, text, bytes, tag, array, Values, count, max_int64,
}
use arduino_cloud_connector.Wire.Decode.{Read, got, decode_content, decode_items}

ltb-length : (s rest : List ℕ) → ltb (length (s ++ rest)) (length s) ≡ false
ltb-length s rest = rw (length-append s rest) (ground arith)

module _ {F : Type 0} where
  pub content_0 :
      (read : List ℕ → Read (Value F)) (n : ℕ) (rest : List ℕ)
      → n ≤ max_int64
      → decode_content read 0 n rest ≡ got (int64 (pos n)) rest
  unfolding decode_content
  content_0 read n rest h = ground arith

  pub content_0_large :
      (read : List ℕ → Read (Value F)) (n : ℕ) (rest : List ℕ)
      → max_int64 < n
      → decode_content read 0 n rest ≡ got (uint64 n) rest
  unfolding decode_content
  content_0_large read n rest h = ground arith

  pub content_1 :
      (read : List ℕ → Read (Value F)) (n : ℕ) (rest : List ℕ)
      → n ≤ max_int64
      → decode_content read 1 n rest ≡ got (int64 (negsuc n)) rest
  unfolding decode_content
  content_1 read n rest h = ground arith

  pub content_2 :
      (read : List ℕ → Read (Value F)) (s rest : List ℕ)
      → decode_content read 2 (length s) (s ++ rest) ≡ got (bytes s) rest
  unfolding decode_content
  content_2 read s rest = rw (ltb-length s rest, take-append s rest, drop-append s rest) refl

  pub content_3 :
      (read : List ℕ → Read (Value F)) (s rest : List ℕ)
      → decode_content read 3 (length s) (s ++ rest) ≡ got (text s) rest
  unfolding decode_content
  content_3 read s rest = rw (ltb-length s rest, take-append s rest, drop-append s rest) refl

  pub content_4 :
      (read : List ℕ → Read (Value F)) (vs : Values F) (bs rest : List ℕ)
      → count vs ≤ length bs
      → decode_items read (count vs) bs ≡ got vs rest
      → decode_content read 4 (count vs) bs ≡ got (array vs) rest
  unfolding decode_content
  content_4 read vs bs rest h e = rw e (ground arith)

  pub content_6 :
      (read : List ℕ → Read (Value F)) (n : ℕ) (v : Value F) (bs rest : List ℕ)
      → read bs ≡ got v rest
      → decode_content read 6 n bs ≡ got (tag n v) rest
  unfolding decode_content
  content_6 read n v bs rest e = rw e refl
