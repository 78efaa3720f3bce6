-- ===== src/Cron/Next.antt =====
-- cron/cron.go: `Next` and `NextN`. The times of the loop are whole
-- seconds, and stand for their number since the zero time.
pub mod Jumps
pub mod Days
pub mod Least
pub mod Chains
pub mod HalfHours
pub mod Accepts
pub mod Gaps
use jobx.Prelude.{
  ℕ, zero, suc, ◌+◌, ◌-◌, ◌*◌, ◌/◌, ◌^◌, Bool, true, false, not, ◌&&◌, ◌∷◌, List, [], Option, none,
  some, ltb, ◌==◌, if◌then◌else◌,
}
use jobx.Clock.{Time}
use jobx.Errors.{Result, ok, err, new_code, cron_invalid, ◌>>=◌}
use jobx.Cron.{Expr, Field, bit, next_in_set, day_match}
use jobx.Cron.Calendar.{
  Location, Civil, second_of, minute_of, hour_of, day_of, date_of, weekday_of, date, add_date,
  truncate,
}

-- Whether the fields of the day accept the day of `t`.
unfoldable pub day_ok : Expr → Location → ℕ → Bool
unfolding day_match
day_ok e loc t =
    day_match e.dom.all e.dow.all (bit e.dom.set (date_of loc t).day)
      (bit e.dow.set (weekday_of loc t))

-- The first round of midnight after `t`: `time.Date` at midnight, and `AddDate` of one day.
abbrev pub next_day : Location → ℕ → ℕ
next_day loc t = let c = date_of loc t in add_date loc (date loc c.year c.month c.day 0) 0 1

abbrev pub next_month : Location → ℕ → ℕ
next_month loc t = let c = date_of loc t in date loc c.year (c.month + 1) 1 0

abbrev pub second_from : Option ℕ → Location → ℕ → ℕ
second_from none loc t = truncate 60 t + 60
second_from (some n) loc t = t + (n - second_of loc t)

abbrev pub minute_from : Option ℕ → Location → ℕ → ℕ
minute_from none loc t = truncate 3600 t + 3600
minute_from (some n) loc t = truncate 60 t + (n - minute_of loc t) * 60

-- The loop over the hours from `h` on, of which `left` are left.
unfoldable pub hour_from : ℕ → ℕ → Field → Location → ℕ → ℕ
hour_from zero h f loc t = next_day loc t
hour_from (suc left) h f loc t =
    let rest = hour_from left (suc h) f loc t in
    let c = date_of loc t in
    let candidate = date loc c.year c.month c.day (h * 3600) in
    if bit f.set h && hour_of loc candidate == h then candidate else rest

-- A round of the loop: the time that it goes on with, or that it returns the time that it has.
pub data NextRound : Type 0 where
  moves : ℕ → NextRound
  fires : NextRound

unfoldable pub next_round : Expr → Location → ℕ → NextRound
unfolding hour_from
next_round e loc t =
    if not (bit e.sec.set (second_of loc t))
    then moves (second_from (next_in_set e.sec (second_of loc t)) loc t)
    else if not (bit e.min.set (minute_of loc t))
    then moves (minute_from (next_in_set e.min (minute_of loc t)) loc t)
    else if not (bit e.hour.set (hour_of loc t))
    then moves (hour_from (23 - hour_of loc t) (hour_of loc t + 1) e.hour loc t)
    else if not (day_ok e loc t)
    then moves (next_day loc t)
    else if not (bit e.month.set (date_of loc t).month)
    then moves (next_month loc t)
    else fires

-- How the loop ends: it returns a time, or reaches the limit; `stuck` is a loop that ran out of fuel.
pub data Search : Type 0 where
  found : ℕ → Search
  exhausted : Search
  stuck : Search

abbrev pub after_round : NextRound → ℕ → (ℕ → Search) → Search
after_round (moves t') t go = go t'
after_round fires t go = found t

unfoldable pub next_loop : ℕ → Expr → Location → ℕ → ℕ → Search
unfolding next_round
next_loop zero e loc limit t = if ltb t limit then stuck else exhausted
next_loop (suc fuel) e loc limit t =
    let rest = after_round (next_round e loc t) t (next_loop fuel e loc limit) in
    if ltb t limit then rest else exhausted

abbrev pub nanoseconds : ℕ
nanoseconds = 10 ^ 9

abbrev pub max_scan_years : ℕ
max_scan_years = 5

-- `after.Add(time.Second).Truncate(time.Second)`, in seconds.
abbrev pub scan_start : Time → ℕ
scan_start after = (after + nanoseconds) / nanoseconds

-- The limit of the scan.
abbrev pub scan_limit : Location → Time → ℕ
scan_limit loc after = add_date loc (scan_start after) max_scan_years 0

search_result : Search → Option (Result Time)
search_result (found t) = some (ok (t * nanoseconds))
search_result exhausted = some (err (new_code cron_invalid))
search_result stuck = none

-- `Next`; `none` is a loop that ran out of fuel. Each round goes on by a second at least.
unfoldable pub next : Expr → Location → Time → Option (Result Time)
unfolding next_loop search_result
next e loc after =
    let t = scan_start after in
    let limit = scan_limit loc after in search_result (next_loop (limit - t) e loc limit t)

-- The error of a round ends the loop.
after_next :
    Option (Result Time) → (Time → Option (Result (List Time))) → Option (Result (List Time))
after_next none go = none
after_next (some (err e)) go = some (err e)
after_next (some (ok t)) go = go t

consed : Time → Option (Result (List Time)) → Option (Result (List Time))
consed t none = none
consed t (some (err e)) = some (err e)
consed t (some (ok l)) = some (ok (t ∷ l))

-- The loop of `NextN`.
unfoldable pub next_times : ℕ → Expr → Location → Time → Option (Result (List Time))
unfolding next after_next consed
next_times zero e loc after = some (ok [])
next_times (suc n) e loc after =
    after_next (next e loc after) (λ t. consed t (next_times n e loc t))

-- `NextN`, for a number that is not negative.
unfoldable pub next_n : Expr → Location → Time → ℕ → Option (Result (List Time))
unfolding next_times
next_n e loc after n =
    if n == 0 then some (err (new_code cron_invalid)) else next_times n e loc after
