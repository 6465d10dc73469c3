-- ===== src/Clock.antt =====
-- Go's `time.Time` and `time.Duration`, as the correlator uses them. A time is the number of
-- nanoseconds since Go's zero time; a duration is the value of an `int64`.
use event_correlator_tool.Common.{ℕ, Bool, false, eqb}
use event_correlator_tool.Common.Int.{ℤ, pos, negsuc, ◌+ℤ◌, ◌-ℤ◌, ltb_ℤ, saturate_int64, quot_ℕ}

abbrev pub Time : Type 0
Time = ℤ

abbrev pub Duration : Type 0
Duration = ℤ

-- `var t time.Time`
abbrev pub zero_time : Time
zero_time = pos 0

-- `t.IsZero()`
abbrev pub is_zero : Time → Bool
is_zero (pos n) = eqb n 0
is_zero (negsuc n) = false

-- `t.Before(u)`
abbrev pub before : Time → Time → Bool
before t u = ltb_ℤ t u

-- `t.After(u)`
abbrev pub after : Time → Time → Bool
after t u = ltb_ℤ u t

-- `t.Add(d)`
unfoldable pub add : Time → Duration → Time
unfolding ◌+ℤ◌
add t d = t +ℤ d

-- `t.Sub(u)`, which saturates.
unfoldable pub sub : Time → Time → Duration
unfolding ◌-ℤ◌ saturate_int64
sub t u = saturate_int64 (t -ℤ u)

-- `time.Millisecond`, in nanoseconds
abbrev pub millisecond : ℕ
millisecond = 1_000_000

-- `time.Second`
abbrev pub second : Duration
second = pos 1_000_000_000

-- `d.Milliseconds()`
unfoldable pub milliseconds : Duration → ℤ
unfolding quot_ℕ
milliseconds d = quot_ℕ d millisecond
