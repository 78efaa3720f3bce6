-- ===== src/Cron/Next/Chains.antt =====
-- cron/cron.go: what `NextN` returns.
use jobx.Prelude.{
  ℕ, zero, suc, ◌*◌, ◌≤◌, ◌<◌, ◌≡◌, refl, ap, false, List, [], ◌∷◌, Option, none, some, arith,
  length, ◌==◌,
}
use jobx.Clock.{Time}
use jobx.Errors.{Result, ok, err, new_code, cron_invalid}
use jobx.Cron.{Expr}
use jobx.Cron.Whole.{IsSound}
use jobx.Cron.Calendar.{Location, IsHourly}
use jobx.Cron.Next.{nanoseconds, next, after_next, consed, next_times, next_n}
use jobx.Cron.Next.Least.{IsNextFiring, next-IsNextFiring}

-- Each time is the next firing after the one before it, the first one after `after`.
abbrev pub IsChain : Expr → Location → Time → List Time → Type 0
IsChain e loc after [] = Unit
IsChain e loc after (t ∷ l) = IsNextFiring e loc after (some (ok t)) × IsChain e loc t l

-- So many firings, or the error of `Next`.
abbrev pub AreFirings : Expr → Location → Time → ℕ → Option (Result (List Time)) → Type 0
AreFirings e loc after n none = ⊥
AreFirings e loc after n (some (err x)) = x ≡ new_code cron_invalid
AreFirings e loc after n (some (ok l)) = (length l ≡ n) × IsChain e loc after l

consed-AreFirings :
    (e : Expr) (loc : Location) (after t : Time) (n : ℕ) (r : Option (Result (List Time)))
    → IsNextFiring e loc after (some (ok t))
    → AreFirings e loc t n r
    → AreFirings e loc after (suc n) (consed t r)
unfolding consed
consed-AreFirings e loc after t n none f h = h
consed-AreFirings e loc after t n (some (err x)) f h = h
consed-AreFirings e loc after t n (some (ok l)) f (size, chain) = (ap suc size, (f, chain))

after_next-AreFirings :
    (e : Expr) (loc : Location) (after : Time) (n : ℕ) (r : Option (Result Time))
    (go : Time → Option (Result (List Time)))
    → IsNextFiring e loc after r
    → ((t : Time) → after < t → AreFirings e loc t n (go t))
    → AreFirings e loc after (suc n) (after_next r (λ t. consed t (go t)))
unfolding after_next
after_next-AreFirings e loc after n none go f h = f
after_next-AreFirings e loc after n (some (err x)) go f h = f.0
after_next-AreFirings e loc after n (some (ok t)) go f h =
    consed-AreFirings e loc after t n (go t) f (h t f.2)

module _ (e : Expr) (loc : Location) (sound : IsSound e) (hours : IsHourly loc) where
  next_times-AreFirings :
      (n : ℕ) (after : Time)
      → 86400 * nanoseconds ≤ after
      → AreFirings e loc after n (next_times n e loc after)
  unfolding next_times
  next_times-AreFirings zero after late = (refl, tt)
  next_times-AreFirings (suc n) after late =
      after_next-AreFirings e loc after n (next e loc after) (next_times n e loc)
        (next-IsNextFiring e loc after sound hours late)
        (λ t later. next_times-AreFirings n t (omega (arith, late, later)))

  -- For an expression whose fields are in their bounds, in a location that is a whole number of
  -- hours off, from a day after the zero time on and for a positive number, `NextN` returns as many
  -- times as it is asked for, each the first after the one before that the expression accepts, or
  -- the error of an invalid expression.
  pub next_n-AreFirings :
      (after : Time) (n : ℕ)
      → 86400 * nanoseconds ≤ after
      → 0 < n
      → AreFirings e loc after n (next_n e loc after n)
  unfolding next_n
  next_n-AreFirings after n late pos =
      let positive : (n == 0) ≡ false = ground arith in
      rw positive (next_times-AreFirings n after late)
