-- ===== src/Variables/Text.antt =====
-- strings.HasPrefix and the order of Go strings, on code points: for UTF-8 it is that of the bytes.
use Prim.Native.Char.{code}
use Prim.Native.String.{String}
use mathlib.Core.Bool.{Bool, true, false, ◌&&◌}
use arduino_cloud_connector.Common.{ltb, ◌==◌, if◌then◌else◌}

unfoldable pub has_prefix : String → String → Bool
has_prefix String.[] s = true
has_prefix (String.◌∷◌ c p) String.[] = false
has_prefix (String.◌∷◌ c p) (String.◌∷◌ d s) = code c == code d && has_prefix p s

unfoldable pub text_leb : String → String → Bool
text_leb String.[] s = true
text_leb (String.◌∷◌ c p) String.[] = false
text_leb (String.◌∷◌ c p) (String.◌∷◌ d s) =
    if ltb (code c) (code d) then true else code c == code d && text_leb p s

-- The concatenation of two texts.
unfoldable pub append : String → String → String
append String.[] t = t
append (String.◌∷◌ c s) t = String.◌∷◌ c (append s t)
