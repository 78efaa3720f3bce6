-- ===== src/Scheduler/Wrappers/Decimals.antt =====
-- `strconv.Atoi` reads what `%d` writes.
use native.Mathlib.Nat.{pow-suc}
use jobx.Prelude.{
  ℕ, zero, suc, ◌+◌, ◌-◌, ◌*◌, ◌/◌, ◌%◌, ◌^◌, ◌<◌, ◌≤◌, ◌≡◌, ◌≢◌, refl, ap, subst, ◌∙◌, false, [],
  ◌∷◌, some, arith, ltb, ◌==◌, Bool-cases, inl, inr, All,
}
use jobx.Text.{Text}
use jobx.Cron.Strings.{atoi, digits}
use jobx.Scheduler.Wrappers.{digits_before}

digits-digit : (m d : ℕ) (s : Text) → d < 10 → digits m ((48 + d) ∷ s) ≡ digits (10 * m + d) s
digits-digit m d s h =
    let same : 10 * m + (48 + d - 48) ≡ 10 * m + d = omega arith in
    ground (arith, ap (λ n. digits n s) same)

digits-digits_before :
    (fuel n : ℕ) (s : Text) → n < 10 ^ fuel → digits 0 (digits_before fuel n s) ≡ digits n s
unfolding digits_before
digits-digits_before zero n s h = let e : n ≡ 0 = omega arith in rw e refl
digits-digits_before (suc fuel) n s h = elim (Bool-cases (ltb n 10)) [
  | inl small ↦ rw small (digits-digit 0 n s (ground arith) ∙ ap (λ k. digits k s) (omega arith))
  | inr large ↦
      let within : n < 10 ^ fuel * 10 = subst (λ k. n < k) (pow-suc 10 fuel) h in
      rw large (
        digits-digits_before fuel (n / 10) ((48 + n % 10) ∷ s) (omega arith)
        ∙ (digits-digit (n / 10) (n % 10) s (omega arith) ∙ ap (λ k. digits k s) (omega arith)))
]

-- A byte of a decimal digit.
abbrev pub IsDigit : ℕ → Type 0
IsDigit c = (48 ≤ c) × (c < 58)

pub record IsNumeral (w : Text) : Type 0 where
  pub full : w ≢ []
  pub digits : All IsDigit w

digits_before-IsNumeral :
    (fuel n : ℕ) (s : Text)
    → n < 10 ^ fuel
    → s ≢ []
    → All IsDigit s
    → IsNumeral (digits_before fuel n s)
unfolding digits_before
digits_before-IsNumeral zero n s h full on = record { full = full; digits = on }
digits_before-IsNumeral (suc fuel) n s h full on = elim (Bool-cases (ltb n 10)) [
  | inl small ↦ rw small (record { full = λ e. cc; digits = ((omega arith, ground arith), on) })
  | inr large ↦
      let within : n < 10 ^ fuel * 10 = subst (λ k. n < k) (pow-suc 10 fuel) h in
      rw large (
        digits_before-IsNumeral fuel (n / 10) ((48 + n % 10) ∷ s) (omega arith) (λ e. cc)
          ((omega arith, omega arith), on))
]

pub small-IsNumeral : (n : ℕ) → n < 2 ^ 64 → IsNumeral (digits_before 20 n [])
unfolding digits_before
small-IsNumeral n h = elim (Bool-cases (ltb n 10)) [
  | inl small ↦ rw small (record { full = λ e. cc; digits = ((omega arith, ground arith), tt) })
  | inr large ↦ rw large (
      digits_before-IsNumeral 19 (n / 10) ((48 + n % 10) ∷ []) (omega arith) (λ e. cc)
        ((omega arith, omega arith), tt))
]

pub digits-numeral : (n : ℕ) → n < 2 ^ 64 → digits 0 (digits_before 20 n []) ≡ some n
digits-numeral n h = digits-digits_before 20 n [] (omega arith)

atoi-numeral : (w : Text) (n : ℕ) → IsNumeral w → digits 0 w ≡ some n → n < 2 ^ 63 → atoi w ≡ some n
atoi-numeral [] n h e small = absurd (h.full refl)
atoi-numeral (c ∷ w) n h e small =
    let (low, high) = h.digits.0 in
    let no_minus : (c == 45) ≡ false = ground arith in
    let no_plus : (c == 43) ≡ false = ground arith in rw (no_minus, no_plus, e) (ground arith)

pub atoi-digits_before : (n : ℕ) → n < 2 ^ 63 → atoi (digits_before 20 n []) ≡ some n
atoi-digits_before n h =
    atoi-numeral _ n (small-IsNumeral n (omega arith)) (digits-numeral n (omega arith)) h
