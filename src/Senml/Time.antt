-- ===== src/Senml/Time.antt =====
-- internal/senml/codec.go: resolveTime and encodeTime. A time is the nanoseconds since Go's zero time,
-- so that pos 0 is IsZero; the seconds of time.Unix are taken without their wrap-around.
use arduino_cloud_connector.Common.{ℕ, ◌-◌, ◌*◌, ◌/◌, ◌%◌, ◌^◌, Bool, false, ◌==◌, if◌then◌else◌}
use arduino_cloud_connector.Common.Integers.{ℤ, pos, negsuc, plus, minus, add, scaled}

-- float64 with its arithmetic and tests, and the conversions from and to int64.
pub record Floats (F I : Type 0) : Type 0 where
  pub zero : F
  pub is_zero : F → Bool
  pub plus : F → F → F
  pub minus : F → F → F
  pub times : F → F → F
  pub less : F → F → Bool
  pub of_int : ℤ → F
  pub to_int : F → ℤ
  pub int_is_zero : I → Bool

-- From Go's zero time to the Unix epoch, in seconds.
abbrev pub unix_epoch : ℕ
unix_epoch = 62_135_596_800

-- time.Unix
abbrev pub unix : ℤ → ℤ → ℤ
unix sec nsec = add (plus (scaled sec (10 ^ 9)) (unix_epoch * 10 ^ 9)) nsec

-- The whole seconds since the zero time, rounded down, and what is left of a time beyond them.
abbrev pub seconds : ℤ → ℤ
seconds (pos a) = pos (a / 10 ^ 9)
seconds (negsuc a) = negsuc (a / 10 ^ 9)

abbrev pub nanosecond : ℤ → ℕ
nanosecond (pos a) = a % 10 ^ 9
nanosecond (negsuc a) = 10 ^ 9 - 1 - a % 10 ^ 9

abbrev pub is_zero_time : ℤ → Bool
is_zero_time (pos a) = a == 0
is_zero_time (negsuc a) = false

module _ {F I : Type 0} (fl : Floats F I) where
  -- senmlTime > 10^k
  abbrev pub exceeds : F → ℕ → Bool
  exceeds t k = fl.less (fl.of_int (pos (10 ^ k))) t

  unfoldable pub resolve_time : F → ℤ
  resolve_time t =
      let sec = fl.to_int t in
      if fl.is_zero t
      then pos 0
      else if exceeds t 17
      then unix (pos 0) (fl.to_int t)
      else if exceeds t 14
      then unix (pos 0) (scaled (fl.to_int t) (10 ^ 3))
      else if exceeds t 11
      then unix (pos 0) (scaled (fl.to_int t) (10 ^ 6))
      else unix sec (fl.to_int (fl.times (fl.minus t (fl.of_int sec)) (fl.of_int (pos (10 ^ 9)))))

  unfoldable pub encode_time : ℤ → F
  encode_time t =
      let sec = minus (seconds t) unix_epoch in
      let nsec = nanosecond t in
      if is_zero_time t
      then fl.zero
      else if nsec == 0
      then fl.of_int sec
      else if nsec % 10 ^ 6 == 0
      then fl.of_int (plus (scaled sec (10 ^ 3)) (nsec / 10 ^ 6))
      else if nsec % 10 ^ 3 == 0
      then fl.of_int (plus (scaled sec (10 ^ 6)) (nsec / 10 ^ 3))
      else fl.plus (fl.times (fl.of_int sec) (fl.of_int (pos (10 ^ 9)))) (fl.of_int (pos nsec))
