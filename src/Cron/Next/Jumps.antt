-- ===== src/Cron/Next/Jumps.antt =====
-- cron/cron.go: the jumps of `Next` over seconds, minutes and hours go forward and pass over no time
-- that the fields accept.
use jobx.Prelude.{
  ℕ, zero, suc, ◌+◌, ◌-◌, ◌*◌, ◌%◌, ◌≤◌, ◌<◌, ◌≡◌, ◌≢◌, refl, ap, ◌∙◌, Bool, true, false, ◌&&◌,
  Option, none, some, arith, ◌==◌, Bool-cases, inl, inr,
}
use jobx.Cron.{Expr, Field, bit}
use jobx.Cron.Search.{IsNext}
use jobx.Cron.Calendar.{
  Location, second_of, minute_of, hour_of, day_of, date_of, date, day_number, local, instant_of,
  IsHourly,
}
use jobx.Cron.Calendar.Months.{day_number-civil}
use jobx.Cron.Next.{day_ok, next_day, second_from, minute_from, hour_from}

-- `time.Date` on the date of `t`.
pub date-date_of :
    (loc : Location) (t s : ℕ)
    → date loc (date_of loc t).year (date_of loc t).month (date_of loc t).day s
      ≡ instant_of loc (day_of loc t * 86400 + s)
date-date_of loc t s =
    let c = date_of loc t in
    let same : c.day + 0 ≡ c.day = omega arith in
    let days : day_number c.year c.month c.day * 86400 + s ≡ day_of loc t * 86400 + s =
      omega (arith, day_number-civil (day_of loc t) 0, ap (day_number c.year c.month) same) in
    ap (instant_of loc) days

-- Whether an expression accepts a time, in whole seconds.
unfoldable pub matches : Expr → Location → ℕ → Bool
matches e loc s =
    bit e.sec.set (second_of loc s)
    && bit e.min.set (minute_of loc s)
    && bit e.hour.set (hour_of loc s)
    && day_ok e loc s
    && bit e.month.set (date_of loc s).month

-- A jump from `t` to `t'` goes forward, and `P` is off on the way.
pub record Skips (P : ℕ → Bool) (t t' : ℕ) : Type 0 where
  pub forward : t < t'
  pub misses : (s : ℕ) → t ≤ s → s < t' → P s ≡ false

-- The location is a whole number of hours off, and the time is a day after the zero time at least.
pub record IsUsual (loc : Location) (t : ℕ) : Type 0 where
  pub hourly : IsHourly loc
  pub late : 86400 ≤ t

module _ (f : Field) (loc : Location) (t : ℕ) (usual : IsUsual loc t) where
  -- The field of the seconds misses the second of `t`, and `o` is the next one that it has.
  pub second_from-Skips :
      (o : Option ℕ)
      → bit f.set (second_of loc t) ≡ false
      → ((n : ℕ) → o ≡ some n → n < 60)
      → IsNext f (second_of loc t) o
      → Skips (λ s. bit f.set (second_of loc s)) t (second_from o loc t)
  second_from-Skips none off small none_left = record {
    forward = omega arith;
    misses = λ s le lt.
        none_left (second_of loc s) (omega (arith, usual.hourly.hours, usual.hourly.same));
  }
  second_from-Skips (some n) off small (le, on, before) =
      let ne : n ≢ second_of loc t = λ e. let p = ap (bit f.set) e in cc in
      let bound = small n refl in
      record {
        forward = omega (arith, ne, le);
        misses = λ s low lt. before (second_of loc s) (omega (arith, bound)) (omega (arith, bound));
      }

  -- The same for the minutes.
  pub minute_from-Skips :
      (o : Option ℕ)
      → bit f.set (minute_of loc t) ≡ false
      → ((n : ℕ) → o ≡ some n → n < 60)
      → IsNext f (minute_of loc t) o
      → Skips (λ s. bit f.set (minute_of loc s)) t (minute_from o loc t)
  minute_from-Skips none off small none_left = record {
    forward = omega arith;
    misses = λ s le lt.
        none_left (minute_of loc s) (omega (arith, usual.hourly.hours, usual.hourly.same));
  }
  minute_from-Skips (some n) off small (le, on, before) =
      let ne : n ≢ minute_of loc t = λ e. let p = ap (bit f.set) e in cc in
      let bound = small n refl in
      record {
        forward = omega (arith, ne, le);
        misses = λ s low lt.
            before (minute_of loc s) (omega (arith, bound, usual.hourly.hours, usual.hourly.same))
              (omega (arith, bound, usual.hourly.hours, usual.hourly.same));
      }

  abbrev shift : ℕ
  shift = usual.hourly.shift

  pub next_day-eq : next_day loc t ≡ (day_of loc t + 1) * 86400 - shift
  next_day-eq =
      let c = date_of loc t in
      let m : ℕ = date loc c.year c.month c.day 0 in
      let at : m ≡ day_of loc t * 86400 + 0 - shift =
        omega (arith, date-date_of loc t 0, usual.hourly.same) in
      let same_day : day_of loc m ≡ day_of loc t = omega (arith, at, usual.late) in
      let c' = date_of loc m in
      let moved : day_number (c'.year + 0) c'.month (c'.day + 1) ≡ day_of loc m + 1 =
        let e : c'.year + 0 ≡ c'.year = omega arith in
        ap (λ y. day_number y c'.month (c'.day + 1)) e ∙ day_number-civil (day_of loc m) 1 in
      let clock : local loc m % 86400 ≡ 0 = omega (arith, at, usual.late) in
      omega (arith, moved, same_day, clock)

  -- What the loop over the hours passes over.
  pub hour_from-Skips :
      (left h : ℕ)
      → h + left ≡ 24
      → hour_of loc t < h
      → ((k : ℕ) → hour_of loc t ≤ k → k < h → bit f.set k ≡ false)
      → Skips (λ s. bit f.set (hour_of loc s)) t (hour_from left h f loc t)
  unfolding hour_from
  hour_from-Skips zero h last less off = record {
    forward = omega (arith, next_day-eq, usual.late);
    misses =
        λ s le lt. off (hour_of loc s) (omega (arith, next_day-eq)) (omega (arith, next_day-eq));
  }
  hour_from-Skips (suc left) h last less off =
      let c : ℕ =
        date loc (date_of loc t).year (date_of loc t).month (date_of loc t).day (h * 3600) in
      let at : c ≡ day_of loc t * 86400 + h * 3600 - shift =
        omega (arith, date-date_of loc t (h * 3600), usual.hourly.same) in
      let hour : hour_of loc c ≡ h = omega (arith, at, usual.late) in
      elim (Bool-cases (bit f.set h)) [
        | inl on ↦
            let taken : (bit f.set h && hour_of loc c == h) ≡ true = ground (arith, hour) in
            rw (taken, hour_from)
              (record {
                forward = omega (arith, at, usual.late);
                misses = λ s le lt. off (hour_of loc s) (omega (arith, at)) (omega (arith, at));
              })
        | inr off_here ↦
            let passed : (bit f.set h && hour_of loc c == h) ≡ false = ground arith in
            rw (passed, hour_from)
              (hour_from-Skips left (suc h) (omega arith) (omega arith) (λ k le lt.
                elim (Bool-cases (k == h)) [
                  | inl same ↦ let e : k ≡ h = ground arith in rw e off_here
                  | inr other ↦ off k le (ground arith)
                ]))
      ]
