-- ===== src/Cron/Next/Least.antt =====
-- cron/cron.go: what `Next` returns.
use jobx.Prelude.{
  ℕ, zero, suc, ◌+◌, ◌-◌, ◌*◌, ◌≤◌, ◌<◌, ◌≡◌, refl, true, false, Option, none, some, arith, ltb,
  Bool-cases, inl, inr,
}
use jobx.Clock.{Time}
use jobx.Errors.{Result, ok, err, new_code, cron_invalid}
use jobx.Cron.{Expr}
use jobx.Cron.Whole.{IsSound}
use jobx.Cron.Calendar.{Location, IsHourly}
use jobx.Cron.Next.{
  NextRound, moves, fires, next_round, Search, found, exhausted, stuck, after_round, next_loop,
  nanoseconds, scan_start, scan_limit, search_result, next,
}
use jobx.Cron.Next.Jumps.{matches, Skips, IsUsual}
use jobx.Cron.Next.Days.{RoundIsRight, next_round-RoundIsRight}

-- What the loop from `t` on finds: the first time that the expression accepts, or that there is none
-- before the limit.
abbrev pub IsFirst : Expr → Location → ℕ → ℕ → Search → Type 0
IsFirst e loc limit t (found u) =
    (t ≤ u) × (matches e loc u ≡ true) × ((s : ℕ) → t ≤ s → s < u → matches e loc s ≡ false)
IsFirst e loc limit t exhausted = (s : ℕ) → t ≤ s → s < limit → matches e loc s ≡ false
IsFirst e loc limit t stuck = ⊥

-- A jump before the search.
IsFirst-after :
    (e : Expr) (loc : Location) (limit t t' : ℕ) (r : Search)
    → Skips (matches e loc) t t'
    → IsFirst e loc limit t' r
    → IsFirst e loc limit t r
IsFirst-after e loc limit t t' (found u) k (le, on, off) = (
  omega (arith, k.forward),
  on,
  λ s low high. elim (Bool-cases (ltb s t')) [
    | inl before ↦ k.misses s low (ground arith)
    | inr after ↦ off s (ground arith) high
  ],
)
IsFirst-after e loc limit t t' exhausted k off = λ s low high. elim (Bool-cases (ltb s t')) [
  | inl before ↦ k.misses s low (ground arith)
  | inr after ↦ off s (ground arith) high
]
IsFirst-after e loc limit t t' stuck k h = h

round-IsFirst :
    (e : Expr) (loc : Location) (limit t : ℕ) (r : NextRound) (go : ℕ → Search)
    → RoundIsRight e loc t r
    → ((t' : ℕ) → t < t' → IsFirst e loc limit t' (go t'))
    → IsFirst e loc limit t (after_round r t go)
round-IsFirst e loc limit t (moves t') go k rest =
    IsFirst-after e loc limit t t' (go t') k (rest t' k.forward)
round-IsFirst e loc limit t fires go on rest = (omega arith, on, λ s low high. absurd (omega arith))

next_loop-IsFirst :
    (fuel : ℕ) (e : Expr) (loc : Location) (limit t : ℕ)
    → limit ≤ t + fuel
    → IsSound e
    → IsUsual loc t
    → IsFirst e loc limit t (next_loop fuel e loc limit t)
unfolding next_loop
next_loop-IsFirst zero e loc limit t enough sound usual =
    let over : ltb t limit ≡ false = ground arith in
    rw (over, next_loop) (λ s low high. absurd (omega arith))
next_loop-IsFirst (suc fuel) e loc limit t enough sound usual = elim (Bool-cases (ltb t limit)) [
  | inr over ↦ rw (over, next_loop) (λ s low high. absurd (ground arith))
  | inl within ↦
      rw (within, next_loop)
        (round-IsFirst e loc limit t (next_round e loc t) (next_loop fuel e loc limit)
          (next_round-RoundIsRight e loc t sound usual)
          (λ t' later.
            next_loop-IsFirst fuel e loc limit t' (omega arith) sound
              (record { hourly = usual.hourly; late = omega (arith, usual.late) })))
]

-- What `Next` should return: the first whole second after `after` that the expression accepts, or the
-- error if it accepts none before the limit of the scan.
abbrev pub IsNextFiring : Expr → Location → Time → Option (Result Time) → Type 0
IsNextFiring e loc after (some (ok t)) =
    (u : ℕ) × (t ≡ u * nanoseconds)
    × (after < t)
    × (matches e loc u ≡ true)
    × ((s : ℕ) → after < s * nanoseconds → s < u → matches e loc s ≡ false)
IsNextFiring e loc after (some (err x)) =
    (x ≡ new_code cron_invalid)
    × ((s : ℕ) → after < s * nanoseconds → s < scan_limit loc after → matches e loc s ≡ false)
IsNextFiring e loc after none = ⊥

result-IsNextFiring :
    (e : Expr) (loc : Location) (after : Time) (r : Search)
    → IsFirst e loc (scan_limit loc after) (scan_start after) r
    → IsNextFiring e loc after (search_result r)
unfolding search_result
result-IsNextFiring e loc after (found u) (le, on, off) =
    (u, refl, omega arith, on, λ s low high. off s (omega arith) high)
result-IsNextFiring e loc after exhausted off = (refl, λ s low high. off s (omega arith) high)
result-IsNextFiring e loc after stuck h = h

-- For an expression whose fields are in their bounds, in a location of a fixed offset of whole hours,
-- and from a day after the zero time on, `Next` ends, and returns the first whole second after
-- `after` that the expression accepts, or, if it accepts none before the limit of the scan, the error
-- of an invalid expression.
pub next-IsNextFiring :
    (e : Expr) (loc : Location) (after : Time)
    → IsSound e
    → IsHourly loc
    → 86400 * nanoseconds ≤ after
    → IsNextFiring e loc after (next e loc after)
unfolding next
next-IsNextFiring e loc after sound hours late = result-IsNextFiring e loc after _ (
    next_loop-IsFirst (scan_limit loc after - scan_start after) e loc (scan_limit loc after)
      (scan_start after) (omega arith) sound (record { hourly = hours; late = omega arith }))
