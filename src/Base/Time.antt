-- ===== src/Base/Time.antt =====
-- Instants and durations of Go's `time` package. An instant is the number of nanoseconds since the
-- zero `time.Time` (year 1), and a duration is an int64 of nanoseconds.
use levis.Base.Tests.{ltb, leb, if◌then◌else◌}
use levis.Base.Int.{ℤ, pos, negsuc, two_63}
use Prim.Native.Nat.{ℕ, ◌-◌, ◌*◌, min}
use mathlib.Core.Bool.{Bool}

abbrev pub Time : Type 0
Time = ℕ

abbrev pub zero_time : Time
zero_time = 0

abbrev pub second : ℕ
second = 1000000000

abbrev pub minute : ℕ
minute = 60 * second

abbrev pub hour : ℕ
hour = 60 * minute

-- `t.Sub(u)`, which saturates at the ends of int64
abbrev pub time_sub : Time → Time → ℤ
time_sub t u =
    if leb u t then pos (min (t - u) (two_63 - 1)) else negsuc (min (u - t - 1) (two_63 - 1))

-- `t.After(u)`
abbrev pub after : Time → Time → Bool
after t u = ltb u t
