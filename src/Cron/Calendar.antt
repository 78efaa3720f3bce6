-- ===== src/Cron/Calendar.antt =====
-- Go's calendar as cron/cron.go uses it: `time.Date`, `AddDate`, and the clock fields of a time in a
-- location. Years are counted from 0; a day is counted from the first of year 0,
-- and so is a month.
pub mod Months
use jobx.Prelude.{
  ℕ, zero, suc, ◌+◌, ◌-◌, ◌*◌, ◌/◌, ◌%◌, ◌≡◌, Bool, true, false, not, ◌||◌, ltb, ◌==◌,
  if◌then◌else◌,
}

pub is_leap : ℕ → Bool
is_leap y = if not (y % 4 == 0) then false else if not (y % 100 == 0) then true else y % 400 == 0

pub days_in_month : ℕ → ℕ → ℕ
unfolding is_leap
days_in_month y m =
    if m == 2
    then (if is_leap y then 29 else 28)
    else if m == 4 || m == 6 || m == 9 || m == 11
    then 30
    else 31

-- The length of the i-th month since January of year 0, and the days before it.
unfoldable pub month_length : ℕ → ℕ
unfolding days_in_month
month_length i = days_in_month (i / 12) (i % 12 + 1)

unfoldable pub month_start : ℕ → ℕ
unfolding month_length
month_start zero = 0
month_start (suc i) = month_start i + month_length i

-- The month in which a day lies and the days of that month before it, counted from the month `i`.
pub month_walk : ℕ → ℕ → ℕ → ℕ × ℕ
unfolding month_length
month_walk zero i n = (i, n)
month_walk (suc fuel) i n =
    let rest = month_walk fuel (suc i) (n - month_length i) in
    if ltb n (month_length i) then (i, n) else rest

pub record Civil : Type 0 where
  pub year : ℕ
  pub month : ℕ
  pub day : ℕ

-- The date of a day. Every month has a day, so that the walk needs no more rounds than days.
unfoldable pub civil : ℕ → Civil
unfolding month_walk
civil n = let (i, d) = month_walk n 0 n in record { year = i / 12; month = i % 12 + 1; day = d + 1 }

-- The day that `time.Date` makes of a year, a month and a day of the month, which may be too great.
unfoldable pub day_number : ℕ → ℕ → ℕ → ℕ
unfolding month_start
day_number y m d = month_start (12 * y + (m - 1)) + (d - 1)

-- The seconds of year 0, which the zero time follows: 366 days.
abbrev pub year_zero : ℕ
year_zero = 31622400

-- A location: by how much its clock is ahead of the seconds since the zero time, at each of them. That
-- is the seconds of year 0 and the offset of the location then.
pub record Location : Type 0 where
  pub shift_at : ℕ → ℕ

-- A location of a fixed offset.
abbrev pub fixed : ℕ → Location
fixed shift = record { shift_at = λ t. shift }

abbrev pub utc : Location
utc = fixed year_zero

-- What the clock of the location shows at `t`, a number of seconds since the zero time.
abbrev pub local : Location → ℕ → ℕ
local loc t = t + loc.shift_at t

-- The fields of the clock at `t`.
abbrev pub second_of : Location → ℕ → ℕ
second_of loc t = local loc t % 60

abbrev pub minute_of : Location → ℕ → ℕ
minute_of loc t = local loc t / 60 % 60

abbrev pub hour_of : Location → ℕ → ℕ
hour_of loc t = local loc t / 3600 % 24

abbrev pub day_of : Location → ℕ → ℕ
day_of loc t = local loc t / 86400

abbrev pub date_of : Location → ℕ → Civil
date_of loc t = civil (day_of loc t)

-- 0 is Sunday; the first day of year 1 was a Monday.
abbrev pub weekday_of : Location → ℕ → ℕ
weekday_of loc t = (day_of loc t + 6) % 7

-- When the clock shows a time, as `time.Date` finds it: by the offset at the instant that the time would
-- be in UTC, and then by the offset at what this gives.
abbrev pub instant_of : Location → ℕ → ℕ
instant_of loc shown = shown - loc.shift_at (shown - loc.shift_at (shown - year_zero))

-- `time.Date(y, m, d, 0, 0, s, 0, loc)`.
abbrev pub date : Location → ℕ → ℕ → ℕ → ℕ → ℕ
date loc y m d s = instant_of loc (day_number y m d * 86400 + s)

-- `t.AddDate(years, 0, days)`.
abbrev pub add_date : Location → ℕ → ℕ → ℕ → ℕ
add_date loc t years days =
    let c = date_of loc t in date loc (c.year + years) c.month (c.day + days) (local loc t % 86400)

-- Its offset is always the same, and a whole number of hours off.
pub record IsHourly (loc : Location) : Type 0 where
  pub shift : ℕ
  pub same : (t : ℕ) → loc.shift_at t ≡ shift
  pub hours : shift % 3600 ≡ 0

-- `t.Truncate(d)`, for `d` in seconds.
abbrev pub truncate : ℕ → ℕ → ℕ
truncate d t = t - t % d
