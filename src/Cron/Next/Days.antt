-- ===== src/Cron/Next/Days.antt =====
-- cron/cron.go: the jumps of `Next` over days and months, and its rounds.
use jobx.Prelude.{
  ℕ, suc, ◌+◌, ◌-◌, ◌%◌, ◌≤◌, ◌<◌, ◌≡◌, refl, sym, ap, ◌∙◌, Bool, true, false, not, some, arith,
  if◌then◌else◌,
}
use jobx.Cron.{Expr, Field, bit, next_in_set, day_match}
use jobx.Cron.Search.{IsNext, next_in_set-IsNext}
use jobx.Cron.Whole.{IsSound}
use jobx.Cron.Calendar.{
  Location, second_of, minute_of, hour_of, day_of, date_of, civil, month_start,
}
use jobx.Cron.Calendar.Months.{
  month_index, month_index-Holds, Holds-unique, civil-month, day_number-next, month_start-suc,
}
use jobx.Cron.Next.{day_ok, next_day, next_month, NextRound, moves, fires, next_round}
use jobx.Cron.Next.Jumps.{
  matches, Skips, IsUsual, next_day-eq, second_from-Skips, minute_from-Skips, hour_from-Skips,
}

-- What is passed over may be described by less.
Skips-weaken :
    (P Q : ℕ → Bool) (t t' : ℕ)
    → ((s : ℕ) → Q s ≡ false → P s ≡ false)
    → Skips Q t t'
    → Skips P t t'
Skips-weaken P Q t t' w k = record {
  forward = k.forward;
  misses = λ s le lt. w s (k.misses s le lt);
}

-- Whether the fields of the day accept a day.
abbrev accepts_day : Expr → ℕ → Bool
accepts_day e n =
    day_match e.dom.all e.dow.all (bit e.dom.set (civil n).day) (bit e.dow.set ((n + 6) % 7))

module _ (e : Expr) (loc : Location) (t : ℕ) (usual : IsUsual loc t) where
  next_day-Skips : day_ok e loc t ≡ false → Skips (day_ok e loc) t (next_day loc t)
  unfolding day_ok
  next_day-Skips off =
      let midnight = next_day-eq e.sec loc t usual in
      record {
        forward = omega (arith, midnight, usual.late);
        misses = λ s le lt.
            let same : day_of loc t ≡ day_of loc s = omega (arith, midnight) in
            ap (accepts_day e) (sym same) ∙ off;
      }

  next_month-Skips :
      bit e.month.set (date_of loc t).month ≡ false
      → Skips (λ s. bit e.month.set (date_of loc s).month) t (next_month loc t)
  next_month-Skips off =
      let n : ℕ = day_of loc t in
      let start = day_number-next n in
      let holds = month_index-Holds n in
      record {
        forward = omega (arith, start, holds.high, month_start-suc (month_index n), usual.late);
        misses = λ s le lt.
            let later : day_of loc s < month_start (suc (month_index n)) = omega (arith, start) in
            let same =
              Holds-unique (month_index n) (month_index (day_of loc s)) n (day_of loc s) holds
                (omega arith) later (month_index-Holds (day_of loc s)) in
            ap (bit e.month.set) (civil-month n (day_of loc s) same) ∙ off;
      }

-- What a round of the loop comes to: a jump that passes over no time that the expression accepts, or
-- the end at a time that it accepts.
abbrev pub RoundIsRight : Expr → Location → ℕ → NextRound → Type 0
RoundIsRight e loc t (moves t') = Skips (matches e loc) t t'
RoundIsRight e loc t fires = matches e loc t ≡ true

round_if :
    (e : Expr) (loc : Location) (t : ℕ) (b : Bool) (x y : NextRound)
    → (b ≡ false → RoundIsRight e loc t x)
    → (b ≡ true → RoundIsRight e loc t y)
    → RoundIsRight e loc t (if not b then x else y)
round_if e loc t true x y f g = g refl
round_if e loc t false x y f g = f refl

-- A bit that is on is below 60, if all that are on are within a bound below 60.
below_sixty :
    (f : Field) (v : ℕ)
    → ((j : ℕ) → bit f.set j ≡ true → (0 ≤ j) × (j ≤ 59))
    → (n : ℕ) → next_in_set f v ≡ some n
    → n < 60
below_sixty f v within n e =
    let next : IsNext f v (some n) = rw e at (next_in_set-IsNext f v) in
    omega (arith, within n next.1)

-- A time that one field refuses is refused.
misses_one :
    (e : Expr) (loc : Location) (s : ℕ)
    → (bit e.sec.set (second_of loc s) ≡ false → matches e loc s ≡ false)
      × (bit e.min.set (minute_of loc s) ≡ false → matches e loc s ≡ false)
      × (bit e.hour.set (hour_of loc s) ≡ false → matches e loc s ≡ false)
      × (day_ok e loc s ≡ false → matches e loc s ≡ false)
      × (bit e.month.set (date_of loc s).month ≡ false → matches e loc s ≡ false)
unfolding matches
misses_one e loc s =
    (λ h. ground arith, λ h. ground arith, λ h. ground arith, λ h. ground arith, λ h. ground arith)

all_on :
    (e : Expr) (loc : Location) (s : ℕ)
    → bit e.sec.set (second_of loc s) ≡ true
    → bit e.min.set (minute_of loc s) ≡ true
    → bit e.hour.set (hour_of loc s) ≡ true
    → day_ok e loc s ≡ true
    → bit e.month.set (date_of loc s).month ≡ true
    → matches e loc s ≡ true
unfolding matches
all_on e loc s a b c d m = ground arith

-- A round of the loop either returns a time that the expression accepts, or goes on with a later time
-- and passes over none that it accepts.
pub next_round-RoundIsRight :
    (e : Expr) (loc : Location) (t : ℕ)
    → IsSound e
    → IsUsual loc t
    → RoundIsRight e loc t (next_round e loc t)
unfolding next_round
next_round-RoundIsRight e loc t sound usual =
    let s = second_of loc t in
    let m = minute_of loc t in
    let h = hour_of loc t in
    let weaken = Skips-weaken (matches e loc) in
    round_if e loc t (bit e.sec.set s) _ _
      (λ off.
        weaken (λ u. bit e.sec.set (second_of loc u)) t _ (λ u. (misses_one e loc u).0)
          (second_from-Skips e.sec loc t usual (next_in_set e.sec s) off
            (below_sixty e.sec s sound.sec) (next_in_set-IsNext e.sec s)))
      λ sec_on.
        round_if e loc t (bit e.min.set m) _ _
          (λ off.
            weaken (λ u. bit e.min.set (minute_of loc u)) t _ (λ u. (misses_one e loc u).1)
              (minute_from-Skips e.min loc t usual (next_in_set e.min m) off
                (below_sixty e.min m sound.min) (next_in_set-IsNext e.min m)))
          λ min_on.
            round_if e loc t (bit e.hour.set h) _ _
              (λ off.
                weaken (λ u. bit e.hour.set (hour_of loc u)) t _ (λ u. (misses_one e loc u).2)
                  (hour_from-Skips e.hour loc t usual (23 - h) (h + 1) (omega arith) (omega arith)
                    (λ k le lt. let same : k ≡ h = omega arith in rw same off)))
              λ hour_on.
                round_if e loc t (day_ok e loc t) _ _
                  (λ off.
                    weaken (day_ok e loc) t _ (λ u. (misses_one e loc u).3)
                      (next_day-Skips e loc t usual off))
                  λ day_on.
                    round_if e loc t (bit e.month.set (date_of loc t).month) _ _
                      (λ off.
                        weaken (λ u. bit e.month.set (date_of loc u).month) t _
                          (λ u. (misses_one e loc u).4) (next_month-Skips e loc t usual off))
                      (λ month_on. all_on e loc t sec_on min_on hour_on day_on month_on)
