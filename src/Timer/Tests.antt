-- ===== src/Timer/Tests.antt =====
-- Differences of concrete times.
use hemem.Prelude.{
  ◌<◌, ◌≡◌, refl, arith, some, pos, pos_part, neg_part, ◌+ℤ◌, ◌-ℤ◌, ◌*ℤ◌, long, Returns,
}
use hemem.Timer.{Timeval, time_diff, clock_time_elapsed}
use hemem.Timer.Laws.{micros, time_diff_lem, clock_time_elapsed_lem}

abbrev later : Timeval
later = record { sec = pos 7; usec = pos 200000 }

abbrev earlier : Timeval
earlier = record { sec = pos 4; usec = pos 900000 }

time_diff_runs : time_diff later earlier ≡ some (record { sec = pos 2; usec = pos 300000 })
unfolding time_diff long ◌+ℤ◌ ◌-ℤ◌
time_diff_runs = refl

time_diff_lem_example :
    Returns
      (λ d.
        (neg_part d.usec ≡ 0)
        × (pos_part d.usec < 1000000)
        × (micros earlier +ℤ micros d ≡ micros later))
      (time_diff later earlier)
time_diff_lem_example =
    time_diff_lem later earlier (record { low = refl; high = omega arith; range = omega arith })
      (record { low = refl; high = omega arith; range = omega arith })

clock_time_elapsed_lem_example :
    Returns
      (λ t. pos 4 *ℤ 1000000000 +ℤ pos 900 +ℤ t ≡ pos 7 *ℤ 1000000000 +ℤ pos 200)
      (clock_time_elapsed
        (record { sec = pos 4; nsec = pos 900 })
        (record { sec = pos 7; nsec = pos 200 }))
clock_time_elapsed_lem_example =
    clock_time_elapsed_lem (record { sec = pos 4; nsec = pos 900 })
      (record { sec = pos 7; nsec = pos 200 }) (omega arith) (omega arith) (omega arith)
      (omega arith)
