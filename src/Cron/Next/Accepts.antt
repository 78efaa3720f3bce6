-- ===== src/Cron/Next/Accepts.antt =====
-- cron/cron.go: what `Next` returns, in any location.
use jobx.Prelude.{
  ℕ, zero, suc, ◌-◌, ◌*◌, ◌<◌, ◌≡◌, ◌⊎◌, refl, true, some, arith, ltb, Bool-cases, inl, inr,
}
use jobx.Clock.{Time}
use jobx.Errors.{ok}
use jobx.Cron.{Expr}
use jobx.Cron.Calendar.{Location}
use jobx.Cron.Next.{
  NextRound, moves, fires, next_round, Search, found, exhausted, stuck, after_round, next_loop,
  nanoseconds, scan_start, scan_limit, search_result, next,
}
use jobx.Cron.Next.Jumps.{matches}

next_round-matches :
    (e : Expr) (loc : Location) (t : ℕ) → next_round e loc t ≡ fires → matches e loc t ≡ true
unfolding next_round matches
next_round-matches e loc t h = ground arith

round-found :
    (r : NextRound) (t u : ℕ) (go : ℕ → Search)
    → after_round r t go ≡ found u
    → ((r ≡ fires) × (t ≡ u)) ⊎ ((t' : ℕ) × (go t' ≡ found u))
round-found (moves t') t u go h = inr (t', h)
round-found fires t u go h = inl (refl, ground arith)

next_loop-matches :
    (fuel : ℕ) (e : Expr) (loc : Location) (limit t u : ℕ)
    → next_loop fuel e loc limit t ≡ found u
    → (matches e loc u ≡ true) × (u < limit)
unfolding next_loop
next_loop-matches zero e loc limit t u h = absurd (ground arith)
next_loop-matches (suc fuel) e loc limit t u h = elim (Bool-cases (ltb t limit)) [
  | inr over ↦ absurd (ground (arith, h))
  | inl within ↦
      elim (round-found (next_round e loc t) t u (next_loop fuel e loc limit) (ground (arith, h))) [
        | inl (done, same) ↦ rw (← same) (next_round-matches e loc t done, ground arith)
        | inr (t', later) ↦ next_loop-matches fuel e loc limit t' u later
      ]
]

result-found :
    (s : Search) (t : Time)
    → search_result s ≡ some (ok t)
    → (u : ℕ) × (s ≡ found u) × (t ≡ u * nanoseconds)
unfolding search_result
result-found (found u) t h = (u, refl, ground arith)
result-found exhausted t h = absurd (ground arith)
result-found stuck t h = absurd (ground arith)

-- In any location, also in one that changes its offset, a time that `Next` returns is a whole second
-- before the limit of the scan at which every field of the expression accepts what the clock of the
-- location shows.
pub next-matches :
    (e : Expr) (loc : Location) (after t : Time)
    → next e loc after ≡ some (ok t)
    → (u : ℕ) × (t ≡ u * nanoseconds) × (matches e loc u ≡ true) × (u < scan_limit loc after)
unfolding next
next-matches e loc after t h =
    let (u, at, same) =
      result-found
        (next_loop (scan_limit loc after - scan_start after) e loc (scan_limit loc after)
          (scan_start after))
        t h in
    let (on, near) =
      next_loop-matches (scan_limit loc after - scan_start after) e loc (scan_limit loc after)
        (scan_start after) u at in
    (u, same, on, near)
