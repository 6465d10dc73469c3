-- ===== src/Config/Window.antt =====
-- The correlation window that `newEngine` of main.go computes.
use event_correlator_tool.Common.{ℕ, ◌*◌, ◌≤◌, ◌≡◌, arith}
use event_correlator_tool.Common.Int.{ℤ, pos, ◌+ℤ◌, ◌*ℤ◌, ◌<ℤ◌, wrap_int64}
use event_correlator_tool.Clock.{Time, add}
use event_correlator_tool.Config.{window_of}

-- A window of at most 9223372036 seconds, some 292 years, is as many nanoseconds as it should be.
pub window_of-exact : (n : ℕ) → n ≤ 9_223_372_036 → window_of (pos n) ≡ pos (n * 1_000_000_000)
unfolding window_of wrap_int64 ◌*ℤ◌
window_of-exact n h = ground arith

window_of-negative : (n : ℕ) → 9_223_372_037 ≤ n → n ≤ 18_446_744_073 → window_of (pos n) <ℤ pos 0
unfolding window_of wrap_int64 ◌*ℤ◌
window_of-negative n h k = ground arith

add-lt : (t d : ℤ) → d <ℤ pos 0 → add t d <ℤ t
unfolding add ◌+ℤ◌
add-lt t d h = ground arith

-- A window of between 9223372037 and 18446744073 seconds passes the check of `newEngine` and
-- overflows: the deadline of an event is before the event was seen.
pub window_of-overflow :
    (n : ℕ) (now : Time)
    → 9_223_372_037 ≤ n
    → n ≤ 18_446_744_073
    → add now (window_of (pos n)) <ℤ now
window_of-overflow n now h k = add-lt now (window_of (pos n)) (window_of-negative n h k)
