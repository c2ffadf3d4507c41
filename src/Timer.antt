-- ===== src/Timer.antt =====
-- src/timer.c: differences of times. A signed result out of range, which C leaves undefined, is
-- `none`. `elapsed` is `timeDiff` as a floating-point number of seconds, and is left out.
mod Laws
mod Tests
use hemem.Prelude.{ℕ, Option, some, ℤ, pos, negsuc, ◌+ℤ◌, ◌-ℤ◌, ◌*ℤ◌, long, ◌>>=◌}

-- `struct timeval`
pub record Timeval : Type 0 where
  pub sec : ℤ
  pub usec : ℤ

-- `struct timespec`
pub record Timespec : Type 0 where
  pub sec : ℤ
  pub nsec : ℤ

-- The `if` of `timeDiff`.
abbrev pub borrow : ℤ → ℤ → Option Timeval
borrow s (pos u) = some (record { sec = s; usec = pos u })
borrow s (negsuc u) = do
  s ← long (s -ℤ pos 1)
  u ← long (negsuc u +ℤ pos 1000000)
  some (record { sec = s; usec = u })

unfoldable pub time_diff : Timeval → Timeval → Option Timeval
time_diff a b = do s ← long (a.sec -ℤ b.sec); u ← long (a.usec -ℤ b.usec); borrow s u

unfoldable pub clock_time_elapsed : Timespec → Timespec → Option ℤ
clock_time_elapsed start end' = do
  seconds ← long (end'.sec -ℤ start.sec)
  nanoseconds ← long (end'.nsec -ℤ start.nsec)
  t ← long (seconds *ℤ 1000000000)
  long (t +ℤ nanoseconds)
