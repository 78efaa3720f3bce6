-- ===== src/Scheduler/Wrappers.antt =====
-- internal/core/scheduler.go: `Cron`, and the calls that write an expression for it.
pub mod Decimals
pub mod Words
pub mod Fields
pub mod Times
pub mod Firsts
use jobx.Prelude.{ℕ, zero, suc, ◌+◌, ◌-◌, ◌/◌, ◌%◌, ◌^◌, List, [], ◌∷◌, ◌++◌, ltb, if◌then◌else◌}
use jobx.Text.{Text}
use jobx.Clock.{Word, is_negative}
use jobx.Errors.{Result, err}
use jobx.Cron.{parse}
use jobx.Scheduler.{Scheduler, Schedule, add_parsed, Ending, ends, panics}
use jobx.Scheduler.Rounds.{stop}

-- The decimal digits of a number before a text. A 64-bit number has at most 20.
unfoldable pub digits_before : ℕ → ℕ → Text → Text
digits_before zero n s = s
digits_before (suc fuel) n s =
    let rest = digits_before fuel (n / 10) ((48 + n % 10) ∷ s) in
    if ltb n 10 then (48 + n) ∷ s else rest

-- `%d` of an int; 45 is `-`.
unfoldable pub decimal : Word → Text
decimal w = if is_negative w then 45 ∷ digits_before 20 (2 ^ 64 - w) [] else digits_before 20 w []

abbrev pub star : Text
star = 42 ∷ []

-- Words with a space between them, as in the format strings of `fmt.Sprintf`.
unfoldable pub spaced : Text → List Text → Text
spaced word [] = word
spaced word (w ∷ ws) = word ++ (32 ∷ spaced w ws)

-- `Cron`.
unfoldable pub add_cron : Text → Text → Scheduler → Ending (Result ℕ × Scheduler)
add_cron expr name s = add_parsed (parse expr) name s

-- `EveryMinuteAt`.
unfoldable pub every_minute_at : Word → Text → Scheduler → Ending (Result ℕ × Scheduler)
every_minute_at second name s =
    add_cron (spaced (decimal second) (star ∷ star ∷ star ∷ star ∷ star ∷ [])) name s

-- `EveryHourAt`; 48 is `0`.
unfoldable pub every_hour_at : Word → Text → Scheduler → Ending (Result ℕ × Scheduler)
every_hour_at minute name s =
    add_cron (spaced (48 ∷ []) (decimal minute ∷ star ∷ star ∷ star ∷ star ∷ [])) name s

-- `DailyAt`.
unfoldable pub daily_at : Word → Word → Word → Text → Scheduler → Ending (Result ℕ × Scheduler)
daily_at hour minute second name s =
    add_cron (spaced (decimal second) (decimal minute ∷ decimal hour ∷ star ∷ star ∷ star ∷ []))
      name s

-- `WeeklyAt`.
unfoldable pub weekly_at :
    Word → Word → Word → Word → Text → Scheduler → Ending (Result ℕ × Scheduler)
weekly_at weekday hour minute second name s =
    add_cron
      (spaced (decimal second) (decimal minute ∷ decimal hour ∷ star ∷ star ∷ decimal weekday ∷ []))
      name s

without_error : Ending (Result ℕ × Scheduler) → Ending Scheduler
without_error (ends (r, s)) = ends s
without_error panics = panics

-- `Schedule.Stop`, up to the wait of `Stop`.
unfoldable pub stop_schedule : Schedule → Scheduler → Ending Scheduler
unfolding without_error
stop_schedule shown s = without_error (stop shown.id s)
