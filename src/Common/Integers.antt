-- ===== src/Common/Integers.antt =====
-- Go's signed integers where one may be negative: division rounds to 0, and byte() keeps the low 8
-- bits. No number that is computed with here is near the limits of an int.
use Prim.Native.Nat.{ℕ, ◌+◌, ◌-◌, ◌*◌, ◌/◌, ◌%◌}
use mathlib.Core.Bool.{Bool, false}
use arduino_cloud_connector.Common.Tests.{ltb, if◌then◌else◌}

-- `negsuc n` is -(n + 1).
pub data ℤ : Type 0 where
  pos negsuc : ℕ → ℤ

abbrev pub negate : ℕ → ℤ
negate n = if ltb 0 n then negsuc (n - 1) else pos 0

-- a - b of two naturals
abbrev pub difference : ℕ → ℕ → ℤ
difference a b = if ltb a b then negsuc (b - a - 1) else pos (a - b)

abbrev pub plus : ℤ → ℕ → ℤ
plus (pos a) n = pos (a + n)
plus (negsuc a) n = difference n (a + 1)

abbrev pub minus : ℤ → ℕ → ℤ
minus (pos a) n = difference a n
minus (negsuc a) n = negsuc (a + n)

abbrev pub add : ℤ → ℤ → ℤ
add a (pos n) = plus a n
add a (negsuc n) = minus a (n + 1)

abbrev pub scaled : ℤ → ℕ → ℤ
scaled (pos a) n = pos (a * n)
scaled (negsuc a) n = negate ((a + 1) * n)

abbrev pub quotient : ℤ → ℕ → ℤ
quotient (pos a) n = pos (a / n)
quotient (negsuc a) n = negate ((a + 1) / n)

abbrev pub remainder : ℤ → ℕ → ℤ
remainder (pos a) n = pos (a % n)
remainder (negsuc a) n = negate ((a + 1) % n)

abbrev pub greater : ℤ → ℕ → Bool
greater (pos a) n = ltb n a
greater (negsuc a) n = false

abbrev pub byte_of : ℤ → ℕ
byte_of (pos a) = a % 256
byte_of (negsuc a) = 255 - a % 256
