-- ===== src/Tests/Firings.antt =====
-- `Next` and `NextN` of cron/cron.go at concrete inputs.
use jobx.Prelude.{
  ℕ, zero, suc, false, ◌*◌, ◌<◌, ◌≤◌, ◌≡◌, ltb, if◌then◌else◌, refl, true, some, arith,
}
use jobx.Errors.{ok, err, new_code, cron_invalid}
use jobx.Cron.{Expr, bit, next_in_set}
use jobx.Cron.Whole.{IsSound, parse-IsSound}
use jobx.Cron.Ranges.{bit-no_bits}
use jobx.Cron.Calendar.{Location, IsHourly, fixed, year_zero, utc, civil, day_number}
use jobx.Cron.Next.{next, next_round, day_ok, nanoseconds, next_loop, scan_start, scan_limit, stuck}
use jobx.Cron.Next.Least.{IsNextFiring, next-IsNextFiring}
use jobx.Cron.Next.HalfHours.{next-half_hour}
use jobx.Cron.Next.Jumps.{matches}
use jobx.Cron.Next.Accepts.{next-matches}
use jobx.Cron.Next.Gaps.{SkipsMidnight, IsLate, next_loop-never_ends}
use jobx.Tests.Crons.{only, nine, at_nine, nine_parsed}

-- The first Friday of year 1 is the fifth of January.
friday : next at_nine utc (172800 * nanoseconds) ≡ some (ok (378000 * nanoseconds))
unfolding next next_round next_in_set day_ok civil day_number
friday = refl

pub utc-IsHourly : IsHourly utc
utc-IsHourly = record { shift = year_zero; same = λ t. refl; hours = refl }

pub nine-IsSound : IsSound at_nine
nine-IsSound = parse-IsSound nine at_nine nine_parsed

next-IsNextFiring_example :
    IsNextFiring at_nine utc (172800 * nanoseconds) (next at_nine utc (172800 * nanoseconds))
next-IsNextFiring_example =
    next-IsNextFiring at_nine utc (172800 * nanoseconds) nine-IsSound utc-IsHourly (omega arith)

-- Five and a half hours ahead of UTC.
abbrev kolkata : Location
kolkata = fixed 31642200

nine_early : (j : ℕ) → bit at_nine.min.set j ≡ true → j < 30
nine_early zero on = omega arith
nine_early (suc j) on = absurd (ground (arith, bit-no_bits 59 j))

next-half_hour_example :
    next at_nine kolkata (172799 * nanoseconds) ≡ some (err (new_code cron_invalid))
next-half_hour_example =
    next-half_hour at_nine kolkata 31642200 (λ t. refl) refl refl nine_early (172799 * nanoseconds)
      (omega arith)

next-matches_example :
    (u : ℕ) × (378000 * nanoseconds ≡ u * nanoseconds)
    × (matches at_nine utc u ≡ true)
    × (u < scan_limit utc (172800 * nanoseconds))
next-matches_example = next-matches at_nine utc (172800 * nanoseconds) (378000 * nanoseconds) friday

-- Five hours behind UTC, until the clock goes from midnight to one o'clock on a day of year 1.
abbrev havana_gap : ℕ
havana_gap = 2955600

abbrev havana : Location
havana = record {
  shift_at =
      λ t. if ltb t havana_gap then 31604400 else if ltb t 18000000 then 31608000 else 31604400;
}

havana-SkipsMidnight : SkipsMidnight havana havana_gap
havana-SkipsMidnight = record {
  shift = 31604400;
  before = λ t lt le. ground arith;
  at_gap = refl;
  midnight = refl;
  behind = omega arith;
  near = omega arith;
  bounded = λ t. ground arith;
  late = omega arith;
}

-- Every day at midnight.
abbrev at_midnight : Expr
at_midnight = record at_nine { hour = only 0 }

no_later_hour : (h : ℕ) → 10 ≤ h → bit at_midnight.hour.set h ≡ false
no_later_hour zero le = absurd (omega arith)
no_later_hour (suc j) le = bit-no_bits 59 j

-- Ten o'clock on the day before.
ten-IsLate : IsLate havana havana_gap havana-SkipsMidnight at_midnight 2905200
ten-IsLate = record {
  eve_of = (omega arith, omega arith);
  second = refl;
  minute = refl;
  done = no_later_hour;
}

next_loop-never_ends_example :
    next_loop 1000000 at_midnight havana
      (scan_limit havana (2905199 * nanoseconds))
      (scan_start (2905199 * nanoseconds))
    ≡ stuck
next_loop-never_ends_example =
    next_loop-never_ends havana havana_gap havana-SkipsMidnight at_midnight 1000000
      (2905199 * nanoseconds) refl refl ten-IsLate
