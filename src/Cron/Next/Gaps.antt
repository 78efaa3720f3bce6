-- ===== src/Cron/Next/Gaps.antt =====
-- cron/cron.go: `Next` in a location whose clock goes forward at midnight.
use jobx.Prelude.{
  ℕ, zero, suc, ◌+◌, ◌-◌, ◌*◌, ◌%◌, ◌≤◌, ◌<◌, ◌≡◌, refl, ap, ◌∙◌, true, false, arith, ltb,
}
use jobx.Clock.{Time}
use jobx.Cron.{Expr, bit}
use jobx.Cron.Calendar.{
  Location, year_zero, second_of, minute_of, hour_of, day_of, date_of, date, local, instant_of,
  day_number, month_start,
}
use jobx.Cron.Calendar.Months.{day_number-civil, month_start_far}
use jobx.Cron.Next.{
  moves, next_day, hour_from, next_round, stuck, next_loop, scan_start, scan_limit,
}
use jobx.Cron.Next.Jumps.{date-date_of}

-- At `gap` the clock, which would show midnight, goes forward by an hour. The location is behind UTC, it
-- has kept its offset for three days before, and its offsets are within a day of UTC at all times;
-- beyond that, nothing is said of its other transitions.
pub record SkipsMidnight (loc : Location) (gap : ℕ) : Type 0 where
  pub shift : ℕ
  pub before : (t : ℕ) → t < gap → gap ≤ t + 259200 → loc.shift_at t ≡ shift
  pub at_gap : loc.shift_at gap ≡ shift + 3600
  pub midnight : (gap + shift) % 86400 ≡ 0
  pub behind : shift < year_zero
  pub near : year_zero ≤ shift + 86400
  pub bounded : (t : ℕ) → loc.shift_at t ≤ year_zero + 86400
  pub late : 259200 ≤ gap

module _ (loc : Location) (gap : ℕ) (k : SkipsMidnight loc gap) where
  -- The day before the gap.
  abbrev IsEve : ℕ → Type 0
  IsEve t = (t < gap) × (gap ≤ t + 86400)

  -- What `time.Date` makes of a reading up to the gap.
  instant_of-early :
      (shown : ℕ)
      → shown < gap + k.shift
      → gap + k.shift ≤ shown + 86400
      → instant_of loc shown ≡ shown - k.shift
  instant_of-early shown lt le =
      let first : loc.shift_at (shown - year_zero) ≡ k.shift =
        k.before (shown - year_zero) (omega (arith, k.behind)) (omega (arith, k.near, k.late)) in
      let second : loc.shift_at (shown - k.shift) ≡ k.shift =
        k.before (shown - k.shift) (omega (arith, k.late)) (omega (arith, k.late)) in
      rw (first, second) refl

  -- And of the midnight that the clock leaves out.
  instant_of-gap : instant_of loc (gap + k.shift) ≡ gap - 3600
  instant_of-gap =
      let shown : ℕ = gap + k.shift in
      let first : loc.shift_at (shown - year_zero) ≡ k.shift =
        k.before (shown - year_zero) (omega (arith, k.behind)) (omega (arith, k.near, k.late)) in
      let there : shown - k.shift ≡ gap = omega arith in rw (first, there, k.at_gap) (omega arith)

  -- `time.Date` at midnight and `AddDate` of one day give eleven o'clock in the evening of the day that
  -- they are to leave.
  next_day-back : (t : ℕ) → IsEve t → next_day loc t ≡ gap - 3600
  next_day-back t (lt, le) =
      let c = date_of loc t in
      let here = k.before t lt (omega (arith, le)) in
      let whole : (day_of loc t + 1) * 86400 ≡ gap + k.shift = omega (arith, here, k.midnight) in
      let m : ℕ = date loc c.year c.month c.day 0 in
      let at : m ≡ day_of loc t * 86400 + 0 - k.shift =
        date-date_of loc t 0
        ∙ instant_of-early (day_of loc t * 86400 + 0) (omega (arith, whole))
            (omega (arith, whole)) in
      let there =
        k.before m (omega (arith, at, whole, k.late)) (omega (arith, at, whole, k.late)) in
      let same_day : day_of loc m ≡ day_of loc t = omega (arith, at, there, whole, k.late) in
      let clock : local loc m % 86400 ≡ 0 = omega (arith, at, there, whole, k.late) in
      let c' = date_of loc m in
      let moved : day_number (c'.year + 0) c'.month (c'.day + 1) ≡ day_of loc m + 1 =
        let e : c'.year + 0 ≡ c'.year = omega arith in
        ap (λ y. day_number y c'.month (c'.day + 1)) e ∙ day_number-civil (day_of loc m) 1 in
      let shown : day_number (c'.year + 0) c'.month (c'.day + 1) * 86400 + local loc m % 86400
          ≡ gap + k.shift =
        omega (arith, moved, same_day, clock, whole) in
      ap (instant_of loc) shown ∙ instant_of-gap

  -- The scan reaches beyond the gap.
  limit-far : (from : Time) → IsEve (scan_start from) → gap ≤ scan_limit loc from
  unfolding day_number
  limit-far from (lt, le) =
      let t = scan_start from in
      let c = date_of loc t in
      let i = 12 * c.year + (c.month - 1) in
      let later : 12 * (c.year + 5) + (c.month - 1) ≡ i + 60 = omega arith in
      omega (
        arith,
        k.before t lt (omega (arith, le)),
        le,
        k.bounded,
        k.near,
        k.behind,
        day_number-civil (day_of loc t) 0,
        month_start_far i 60,
        ap month_start later,
      )

  module _ (e : Expr) where
    -- No hour of the expression is left on the day of `t`.
    abbrev pub IsDone : ℕ → Type 0
    IsDone t = (h : ℕ) → hour_of loc t ≤ h → bit e.hour.set h ≡ false

    hour_from-none :
        (left h t : ℕ)
        → ((j : ℕ) → h ≤ j → bit e.hour.set j ≡ false)
        → hour_from left h e.hour loc t ≡ next_day loc t
    unfolding hour_from
    hour_from-none zero h t off = refl
    hour_from-none (suc left) h t off =
        rw (off h (omega arith), hour_from)
          (hour_from-none left (suc h) t (λ j le. off j (omega arith)))

    -- A time of the eve at which the expression accepts the second and the minute, and has no hour left.
    pub record IsLate (t : ℕ) : Type 0 where
      pub eve_of : IsEve t
      pub second : bit e.sec.set (second_of loc t) ≡ true
      pub minute : bit e.min.set (minute_of loc t) ≡ true
      pub done : IsDone t

    round-back : (t : ℕ) → IsLate t → next_round e loc t ≡ moves (gap - 3600)
    unfolding next_round
    round-back t l =
        rw (l.second, l.minute, l.done (hour_of loc t) (omega arith))
          (ap moves (
            hour_from-none (23 - hour_of loc t) (hour_of loc t + 1) t
              (λ j le. l.done j (omega arith))
            ∙ next_day-back t l.eve_of))

    -- Eleven o'clock in the evening is such a time.
    evening-IsLate :
        (t : ℕ) → bit e.sec.set 0 ≡ true → bit e.min.set 0 ≡ true → IsLate t → IsLate (gap - 3600)
    evening-IsLate t sec min l =
        let here = k.before (gap - 3600) (omega (arith, k.late)) (omega (arith, k.late)) in
        let s : second_of loc (gap - 3600) ≡ 0 = omega (arith, here, k.midnight, k.late) in
        let m : minute_of loc (gap - 3600) ≡ 0 = omega (arith, here, k.midnight, k.late) in
        let h : hour_of loc (gap - 3600) ≡ 23 = omega (arith, here, k.midnight, k.late) in
        record {
          eve_of = (omega (arith, k.late), omega (arith, k.late));
          second = ap (bit e.sec.set) s ∙ sec;
          minute = ap (bit e.min.set) m ∙ min;
          done = λ j le. l.done j (omega (arith, h));
        }

    -- However many rounds the loop is given, it does not end.
    next_loop-stuck :
        (fuel limit t : ℕ)
        → gap ≤ limit
        → bit e.sec.set 0 ≡ true
        → bit e.min.set 0 ≡ true
        → IsLate t
        → next_loop fuel e loc limit t ≡ stuck
    unfolding next_loop
    next_loop-stuck zero limit t near sec min l = ground (arith, l.eve_of.0)
    next_loop-stuck (suc fuel) limit t near sec min l =
        let within : ltb t limit ≡ true = ground (arith, l.eve_of.0) in
        rw (within, round-back t l)
          (next_loop-stuck fuel limit (gap - 3600) near sec min (evening-IsLate t sec min l))

    -- In a location behind UTC whose clock goes forward by an hour at midnight, after three days at one
    -- offset, and whose offsets are within a day of UTC, the loop of `Next` never ends for an
    -- expression that accepts the minute 0 and the second 0 if the scan begins on the day before at a
    -- time whose second and minute the expression accepts and from which on it has no hour left: each
    -- round after the first goes from eleven o'clock in the evening to eleven o'clock in the evening,
    -- however many rounds there are before the limit of the scan.
    pub next_loop-never_ends :
        (fuel : ℕ) (from : Time)
        → bit e.sec.set 0 ≡ true
        → bit e.min.set 0 ≡ true
        → IsLate (scan_start from)
        → next_loop fuel e loc (scan_limit loc from) (scan_start from) ≡ stuck
    next_loop-never_ends fuel from sec min l =
        next_loop-stuck fuel (scan_limit loc from) (scan_start from) (limit-far from l.eve_of) sec
          min l
