-- ===== src/Cron/Next/HalfHours.antt =====
-- cron/cron.go: `Next` in a location that is half an hour off.
use jobx.Prelude.{
  ℕ, zero, suc, ◌+◌, ◌-◌, ◌%◌, ◌≤◌, ◌<◌, ◌≡◌, refl, ap, ◌∙◌, true, false, Option, none, some, arith,
  ltb, Bool-cases, inl, inr,
}
use jobx.Clock.{Time}
use jobx.Errors.{err, new_code, cron_invalid}
use jobx.Cron.{Expr, bit, next_in_set}
use jobx.Cron.Search.{IsNext, next_in_set-IsNext}
use jobx.Cron.Calendar.{Location, local, second_of, minute_of, truncate}
use jobx.Cron.Next.{
  moves, next_round, exhausted, next_loop, scan_start, scan_limit, search_result, next,
}

module _ (e : Expr) (loc : Location) (shift : ℕ) (same : (t : ℕ) → loc.shift_at t ≡ shift)
    (half : shift % 3600 ≡ 1800) (on_time : bit e.sec.set 0 ≡ true)
    (early : (j : ℕ) → bit e.min.set j ≡ true → j < 30) where
  no_late_minute : (o : Option ℕ) → IsNext e.min 30 o → o ≡ none
  no_late_minute none h = refl
  no_late_minute (some n) (le, on, off) = absurd (omega (arith, early n on))

  -- At half past an hour the loop goes on at half past the next one.
  round_at_half : (t : ℕ) → local loc t % 3600 ≡ 1800 → next_round e loc t ≡ moves (t + 3600)
  unfolding next_round
  round_at_half t at =
      let second : second_of loc t ≡ 0 = omega arith in
      let minute : minute_of loc t ≡ 30 = omega arith in
      let sec_on : bit e.sec.set (second_of loc t) ≡ true = ap (bit e.sec.set) second ∙ on_time in
      let min_off : bit e.min.set (minute_of loc t) ≡ false =
        elim (Bool-cases (bit e.min.set (minute_of loc t))) [
          | inl on ↦ absurd (omega (arith, early (minute_of loc t) on))
          | inr off ↦ off
        ] in
      let none_left : next_in_set e.min (minute_of loc t) ≡ none =
        ap (next_in_set e.min) minute
        ∙ no_late_minute (next_in_set e.min 30) (next_in_set-IsNext e.min 30) in
      let target : truncate 3600 t + 3600 ≡ t + 3600 = omega (arith, half, same, at) in
      rw (sec_on, min_off) (rw none_left (ap moves target))

  loop_at_half :
      (fuel limit t : ℕ)
      → limit ≤ t + fuel
      → local loc t % 3600 ≡ 1800
      → next_loop fuel e loc limit t ≡ exhausted
  unfolding next_loop
  loop_at_half zero limit t enough at = ground arith
  loop_at_half (suc fuel) limit t enough at = elim (Bool-cases (ltb t limit)) [
    | inr over ↦ rw (over, next_loop) refl
    | inl within ↦
        rw (within, next_loop, round_at_half t at)
          (loop_at_half fuel limit (t + 3600) (omega arith) (omega (arith, same, at)))
  ]

  -- In a location of a fixed offset of whole hours and a half, an expression that accepts the second 0 and only minutes before
  -- the thirtieth is refused as having no firing, if the scan begins at half past an hour on the local
  -- clock: the loop then goes from half past to half past and never sees the first half of an hour.
  pub next-half_hour :
      (after : Time)
      → local loc (scan_start after) % 3600 ≡ 1800
      → next e loc after ≡ some (err (new_code cron_invalid))
  unfolding next search_result
  next-half_hour after at = ap search_result (
      loop_at_half (scan_limit loc after - scan_start after) (scan_limit loc after)
        (scan_start after) (omega arith) at)
