-- ===== src/Scheduler/Wrappers/Times.antt =====
-- internal/core/scheduler.go: `EveryMinuteAt`, `EveryHourAt`, `DailyAt` and `WeeklyAt` fire at the times
-- that their arguments name.
use jobx.Prelude.{
  ℕ, zero, suc, ◌+◌, ◌^◌, ◌<◌, ◌≤◌, ◌≡◌, refl, sym, ap, ◌∙◌, Bool, true, false, ◌&&◌, List, [], ◌∷◌,
  arith, set, leb, ◌==◌, if◌then◌else◌,
}
use jobx.Text.{Text, text_discrete}
use jobx.Clock.{Word}
use jobx.Errors.{Result, err, new_code, cron_invalid}
use jobx.Cron.{
  bit, no_bits, Field, Expr, Parsed, parsed, invalid, ◌>>=◌, parse_field, parse_parts, parse_part,
  part_of_base, apply_part, mark_steps, parse_rest, parse_listed, parse, day_match,
}
use jobx.Cron.Ranges.{bit-no_bits}
use jobx.Cron.Whole.{IsSound, parse-IsSound}
use jobx.Cron.Calendar.{Location, second_of, minute_of, hour_of, day_of, date_of, weekday_of}
use jobx.Cron.Calendar.Months.{civil-index}
use jobx.Cron.Next.{day_ok}
use jobx.Cron.Next.Jumps.{matches}
use jobx.Scheduler.{Scheduler, add_entry, add_parsed, Ending, ends, cron}
use jobx.Scheduler.Wrappers.{
  digits_before, decimal, star, spaced, add_cron, every_minute_at, every_hour_at, daily_at,
  weekly_at,
}
use jobx.Scheduler.Wrappers.Words.{IsWord, fields-spaced, decimal-IsWord}
use jobx.Scheduler.Wrappers.Fields.{fits, only, if_true, if_false, parse_field-decimal}

-- What a wrapper writes for a field: a star, or a number.
pub data Spec : Type 0 where
  any : Spec
  at : Word → Spec

abbrev text_of : Spec → Text
text_of any = star
text_of (at w) = decimal w

abbrev tabulate : ℕ → ℕ → (ℕ → Bool) → List Bool
tabulate zero i f = []
tabulate (suc n) i f = f i ∷ tabulate n (suc i) f

abbrev whole : ℕ → ℕ → Field
whole lo hi = record { set = tabulate 60 0 (λ i. leb lo i && leb i hi); all = true }

abbrev field_of : Spec → ℕ → ℕ → Field
field_of any lo hi = whole lo hi
field_of (at w) lo hi = only w

abbrev accepts : Spec → ℕ → ℕ → Bool
accepts any lo hi = true
accepts (at w) lo hi = fits w lo hi

-- The value that the field asks for.
abbrev hits : Spec → ℕ → Bool
hits any n = true
hits (at w) n = n == w

abbrev IsInt : Spec → Type 0
IsInt any = Unit
IsInt (at w) = w < 2 ^ 64

star_fields :
    (parse_field star 0 59 ≡ parsed (whole 0 59))
    × (parse_field star 0 23 ≡ parsed (whole 0 23))
    × (parse_field star 1 31 ≡ parsed (whole 1 31))
    × (parse_field star 1 12 ≡ parsed (whole 1 12))
    × (parse_field star 0 6 ≡ parsed (whole 0 6))
unfolding parse_field parse_parts parse_part part_of_base apply_part mark_steps text_discrete
star_fields = (refl, refl, refl, refl, refl)

-- A step of the parser that succeeds under a condition.
bind_if :
    {A B : Type 0} (x : Parsed A) (f : A → Parsed B) (b c : Bool) (a : A) (z : B)
    → x ≡ (if b then parsed a else invalid)
    → f a ≡ (if c then parsed z else invalid)
    → (x >>= f) ≡ (if b && c then parsed z else invalid)
bind_if x f true c a z e h = rw e h
bind_if x f false c a z e h = rw e refl

text-field :
    (s : Spec) (lo hi : ℕ)
    → IsInt s
    → lo < 60
    → hi < 60
    → parse_field star lo hi ≡ parsed (whole lo hi)
    → parse_field (text_of s) lo hi
      ≡ (if accepts s lo hi then parsed (field_of s lo hi) else invalid)
text-field any lo hi int low high e = e
text-field (at w) lo hi int low high e = parse_field-decimal w lo hi int low high

text-IsWord : (s : Spec) → IsInt s → IsWord (text_of s)
text-IsWord any int = record { full = λ e. cc; plain = ((omega arith, omega arith), tt) }
text-IsWord (at w) int = decimal-IsWord w int

-- The seconds, minutes, hours and weekdays of an expression.
module _ (s m h d : Spec) where
  abbrev written : Text
  written = spaced (text_of s) (text_of m ∷ text_of h ∷ star ∷ star ∷ text_of d ∷ [])

  abbrev expr_of : Expr
  expr_of = record {
    raw = written;
    sec = field_of s 0 59;
    min = field_of m 0 59;
    hour = field_of h 0 23;
    dom = whole 1 31;
    month = whole 1 12;
    dow = field_of d 0 6;
  }

  abbrev all_accept : Bool
  all_accept =
      accepts s 0 59
      && (accepts m 0 59 && (accepts h 0 23 && (true && (true && (accepts d 0 6 && true)))))

  parse-written :
      IsInt s
      → IsInt m
      → IsInt h
      → IsInt d
      → parse written ≡ (if all_accept then parsed expr_of else invalid)
  unfolding parse parse_listed parse_rest
  parse-written is im ih id =
      let (sixty, day, dom, month, week) = star_fields in
      let words =
        fields-spaced (text_of s) (text_of m ∷ text_of h ∷ star ∷ star ∷ text_of d ∷ [])
          (text-IsWord s is)
          (
            text-IsWord m im,
            (text-IsWord h ih, (text-IsWord any tt, (text-IsWord any tt, (text-IsWord d id, tt)))),
          ) in
      rw words (
        bind_if _ _ _ _ _ _ (text-field s 0 59 is (omega arith) (omega arith) sixty) (
          bind_if _ _ _ _ _ _ (text-field m 0 59 im (omega arith) (omega arith) sixty) (
            bind_if _ _ _ _ _ _ (text-field h 0 23 ih (omega arith) (omega arith) day) (
              bind_if _ _ true _ _ _ dom (
                bind_if _ _ true _ _ _ month (
                  bind_if _ _ _ true _ _ (text-field d 0 6 id (omega arith) (omega arith) week)
                    refl))))))

-- The bits of a field.
bit-tabulate : (n i j : ℕ) (f : ℕ → Bool) → j < n → bit (tabulate n i f) j ≡ f (i + j)
bit-tabulate zero i j f h = absurd (omega arith)
bit-tabulate (suc n) i zero f h = ap f (omega arith)
bit-tabulate (suc n) i (suc j) f h = bit-tabulate n (suc i) j f (omega arith) ∙ ap f (omega arith)

bit-only : (n w j : ℕ) → w < n → bit (set (no_bits n) w true) j ≡ (j == w)
bit-only zero w j h = absurd (omega arith)
bit-only (suc n) zero zero h = refl
bit-only (suc n) zero (suc j) h = bit-no_bits n j ∙ ground arith
bit-only (suc n) (suc w) zero h = ground arith
bit-only (suc n) (suc w) (suc j) h = bit-only n w j (omega arith) ∙ ground arith

bit-field_of :
    (s : Spec) (lo hi j : ℕ)
    → accepts s lo hi ≡ true
    → hi < 60
    → lo ≤ j
    → j ≤ hi
    → bit (field_of s lo hi).set j ≡ hits s j
bit-field_of any lo hi j ok high low top =
    bit-tabulate 60 0 j (λ i. leb lo i && leb i hi) (omega arith) ∙ ground arith
bit-field_of (at w) lo hi j ok high low top = bit-only 60 w j (ground arith)

-- The times that the specifications name.
abbrev pub named : Spec → Spec → Spec → Spec → Location → ℕ → Bool
named s m h d loc t =
    hits s (second_of loc t)
    && hits m (minute_of loc t)
    && hits h (hour_of loc t)
    && hits d (weekday_of loc t)

-- A star for the days of the month leaves the day to the weekdays.
day_ok-weekday :
    (s m h d : Spec) (loc : Location) (t : ℕ)
    → accepts d 0 6 ≡ true
    → day_ok (expr_of s m h d) loc t ≡ hits d (weekday_of loc t)
unfolding day_ok day_match
day_ok-weekday s m h any loc t ok = refl
day_ok-weekday s m h (at w) loc t ok =
    bit-field_of (at w) 0 6 (weekday_of loc t) ok (omega arith) (omega arith) (omega arith)

month_accepted : (loc : Location) (t : ℕ) → bit (whole 1 12).set (date_of loc t).month ≡ true
month_accepted loc t =
    let (_, low, high, _, _) = civil-index (day_of loc t) in
    bit-field_of any 1 12 (date_of loc t).month refl (omega arith) low high

expr_of-matches :
    (s m h d : Spec) (loc : Location) (t : ℕ)
    → all_accept s m h d ≡ true
    → matches (expr_of s m h d) loc t ≡ named s m h d loc t
unfolding matches
expr_of-matches s m h d loc t ok =
    rw
      (
        bit-field_of s 0 59 (second_of loc t) (ground arith) (omega arith) (omega arith)
            (omega arith),
        bit-field_of m 0 59 (minute_of loc t) (ground arith) (omega arith) (omega arith)
            (omega arith),
        bit-field_of h 0 23 (hour_of loc t) (ground arith) (omega arith) (omega arith)
            (omega arith),
        day_ok-weekday s m h d loc t (ground arith),
        month_accepted loc t,
      )
      (ground arith)

-- What a call of a wrapper comes to: if its arguments are within the bounds of the clock, it registers
-- a sound expression that accepts the times that they name and no others, and else it is refused as an
-- invalid expression.
pub record FiresAt (name : Text) (σ : Scheduler) (s m h d : Spec)
    (r : Ending (Result ℕ × Scheduler)) : Type 0 where
  pub accepted :
      all_accept s m h d ≡ true
      → (e : Expr) × (r ≡ ends (add_entry name 0 (cron e) σ))
        × IsSound e
        × ((loc : Location) (t : ℕ) → matches e loc t ≡ named s m h d loc t)
  pub refused : all_accept s m h d ≡ false → r ≡ ends (err (new_code cron_invalid), σ)

add_cron-FiresAt :
    (name : Text) (σ : Scheduler) (s m h d : Spec)
    → IsInt s
    → IsInt m
    → IsInt h
    → IsInt d
    → FiresAt name σ s m h d (add_cron (written s m h d) name σ)
unfolding add_cron add_parsed
add_cron-FiresAt name σ s m h d is im ih id =
    let p = parse-written s m h d is im ih id in
    record {
      accepted = λ ok.
          let q = p ∙ sym (if_true (all_accept s m h d) (parsed (expr_of s m h d)) invalid ok) in
          (
            expr_of s m h d,
            rw q refl,
            parse-IsSound (written s m h d) _ q,
            λ loc t. expr_of-matches s m h d loc t ok,
          );
      refused = λ no_good.
          rw (p ∙ sym (if_false (all_accept s m h d) (parsed (expr_of s m h d)) invalid no_good))
            refl;
    }

-- For int arguments, `EveryMinuteAt`, `EveryHourAt`, `DailyAt` and `WeeklyAt` register, if their
-- arguments are within the bounds of the clock, an expression that accepts a time exactly if its
-- second, minute, hour and weekday are those that the call names; where an argument is out of its
-- bounds, they return the error of an invalid expression and register nothing.
pub wrappers-FiresAt :
    (name : Text) (σ : Scheduler) (weekday hour minute second : Word)
    → weekday < 2 ^ 64
    → hour < 2 ^ 64
    → minute < 2 ^ 64
    → second < 2 ^ 64
    → FiresAt name σ (at second) any any any (every_minute_at second name σ)
      × FiresAt name σ (at 0) (at minute) any any (every_hour_at minute name σ)
      × FiresAt name σ (at second) (at minute) (at hour) any (daily_at hour minute second name σ)
      × FiresAt name σ
          (at second)
          (at minute)
          (at hour)
          (at weekday)
          (weekly_at weekday hour minute second name σ)
unfolding every_minute_at every_hour_at daily_at weekly_at decimal digits_before
wrappers-FiresAt name σ weekday hour minute second hw hh hm hs = (
  add_cron-FiresAt name σ (at second) any any any hs tt tt tt,
  add_cron-FiresAt name σ (at 0) (at minute) any any (omega arith) hm tt tt,
  add_cron-FiresAt name σ (at second) (at minute) (at hour) any hs hm hh tt,
  add_cron-FiresAt name σ (at second) (at minute) (at hour) (at weekday) hs hm hh hw,
)
