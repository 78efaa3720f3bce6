-- ===== src/Cron/Steps.antt =====
-- cron/cron.go: the inner loop of `parseField`.
use jobx.Prelude.{
  ℕ, zero, suc, ◌+◌, ◌*◌, ◌^◌, ◌≤◌, ◌<◌, ◌≡◌, refl, ap, ◌∙◌, Bool, true, List, [], ◌∷◌, Option,
  none, some, arith, length, set, ltb, leb, false, ◌||◌, ◌%◌, Bool-cases, inl, inr, ◌⊎◌, ◌↔◌,
}
use jobx.Clock.{is_negative}
use jobx.Cron.Strings.{less_word}
use jobx.Cron.{bit, Field, Part, crash, mark_steps, marked, apply_part}

pub bit-set :
    (bits : List Bool) (i j : ℕ)
    → i < length bits
    → (bit (set bits i true) j ≡ true) ↔ ((bit bits j ≡ true) ⊎ (i ≡ j))
bit-set bits i j h = (to bits i j h, from bits i j h)
  where
    to :
        (bits : List Bool) (i j : ℕ)
        → i < length bits
        → bit (set bits i true) j ≡ true
        → (bit bits j ≡ true) ⊎ (i ≡ j)
    to [] i j h e = absurd (omega arith)
    to (b ∷ bits) zero zero h e = inr refl
    to (b ∷ bits) zero (suc j) h e = inl e
    to (b ∷ bits) (suc i) zero h e = inl e
    to (b ∷ bits) (suc i) (suc j) h e = elim (to bits i j (omega arith) e) [
      | inl x ↦ inl x
      | inr y ↦ inr (ap suc y)
    ]

    from :
        (bits : List Bool) (i j : ℕ)
        → i < length bits
        → (bit bits j ≡ true) ⊎ (i ≡ j)
        → bit (set bits i true) j ≡ true
    from [] i j h e = absurd (omega arith)
    from (b ∷ bits) zero zero h e = refl
    from (b ∷ bits) zero (suc j) h (inl e) = e
    from (b ∷ bits) zero (suc j) h (inr e) = absurd (omega (arith, e))
    from (b ∷ bits) (suc i) zero h (inl e) = e
    from (b ∷ bits) (suc i) zero h (inr e) = absurd (omega (arith, e))
    from (b ∷ bits) (suc i) (suc j) h (inl e) = from bits i j (omega arith) (inl e)
    from (b ∷ bits) (suc i) (suc j) h (inr e) = from bits i j (omega arith) (inr (omega (arith, e)))

length-set_true : (bits : List Bool) (i : ℕ) → length (set bits i true) ≡ length bits
length-set_true [] i = refl
length-set_true (b ∷ bits) zero = refl
length-set_true (b ∷ bits) (suc i) = ap suc (length-set_true bits i)

-- The indices that the loop visits.
abbrev pub IsStep : ℕ → ℕ → ℕ → ℕ → Type 0
IsStep lo hi step j = (k : ℕ) × (j ≡ lo + k * step) × (j ≤ hi)

-- What the loop achieves: the bits that were on, and those of the steps, are on.
pub record Marks (bits : List Bool) (lo hi step : ℕ) (r : Option (List Bool)) : Type 0 where
  pub result : List Bool
  pub ends : r ≡ some result
  pub size : length result ≡ length bits
  pub on : (j : ℕ) → (bit result j ≡ true) ↔ ((bit bits j ≡ true) ⊎ IsStep lo hi step j)

first_or_later :
    (lo hi step j : ℕ) → lo ≤ hi → IsStep lo hi step j ↔ ((lo ≡ j) ⊎ IsStep (lo + step) hi step j)
first_or_later lo hi step j h = (to, from)
  where
    to : IsStep lo hi step j → (lo ≡ j) ⊎ IsStep (lo + step) hi step j
    to (zero, e, le) = inl (omega (arith, e))
    to (suc k, e, le) = inr (k, omega (arith, e), le)

    from : (lo ≡ j) ⊎ IsStep (lo + step) hi step j → IsStep lo hi step j
    from (inl e) = (0, omega (arith, e), omega (arith, e, h))
    from (inr (k, e, le)) = (suc k, omega (arith, e), le)

-- Past the upper bound the loop visits nothing.
over-Marks : (bits : List Bool) (lo hi step : ℕ) → hi < lo → Marks bits lo hi step (some bits)
over-Marks bits lo hi step h = record {
  result = bits;
  ends = refl;
  size = refl;
  on = λ j. (inl, λ o. elim o [ inl e ↦ e | inr (k, e, le) ↦ absurd (omega (arith, e, le, h)) ]);
}

step-Marks :
    (bits : List Bool) (lo hi step : ℕ) (r : Option (List Bool))
    → lo ≤ hi
    → lo < length bits
    → Marks (set bits lo true) (lo + step) hi step r
    → Marks bits lo hi step r
step-Marks bits lo hi step r le inside m = record {
  result = m.result;
  ends = m.ends;
  size = m.size ∙ length-set_true bits lo;
  on = λ j.
      let (to, from) = m.on j in
      let (set_to, set_from) = bit-set bits lo j inside in
      let (split, join) = first_or_later lo hi step j le in
      (
        λ e. elim (to e) [
          | inr s ↦ inr (join (inr s))
          | inl b ↦ elim (set_to b) [ inl was ↦ inl was | inr here ↦ inr (join (inl here)) ]
        ],
        λ o. elim o [
          | inl was ↦ from (inl (set_from (inl was)))
          | inr s ↦ elim (split s) [
            | inl here ↦ from (inl (set_from (inr here)))
            | inr later ↦ from (inr later)
          ]
        ],
      );
}

mark_steps-suc :
    (fuel lo hi step : ℕ) (bits : List Bool)
    → lo ≤ hi
    → hi < length bits
    → hi < 2 ^ 63
    → step < 2 ^ 63
    → mark_steps (suc fuel) lo hi step bits ≡ mark_steps fuel (lo + step) hi step (set bits lo true)
unfolding mark_steps
mark_steps-suc fuel lo hi step bits le inside small fits =
    let word : (lo + step) % 2 ^ 64 ≡ lo + step = omega arith in
    let within : less_word hi lo ≡ false = ground arith in
    let there : (is_negative lo || leb (length bits) lo) ≡ false = ground arith in
    rw (within, there, word) refl

mark_steps_over :
    (fuel lo hi step : ℕ) (bits : List Bool)
    → hi < lo
    → lo < 2 ^ 63
    → mark_steps fuel lo hi step bits ≡ some bits
unfolding mark_steps
mark_steps_over zero lo hi step bits h small = refl
mark_steps_over (suc fuel) lo hi step bits h small =
    let past : less_word hi lo ≡ true = ground arith in rw past refl

-- If the bounds are within the array and the counter, which is a step beyond the upper one at most,
-- does not overflow, the loop ends without a
-- panic, and the bits that are on afterwards are those that were on and those at the bounds' steps.
pub mark_steps-Marks :
    (fuel lo hi step : ℕ) (bits : List Bool)
    → hi < length bits
    → 0 < step
    → hi + step < 2 ^ 63
    → lo ≤ hi + step
    → hi < lo + fuel
    → Marks bits lo hi step (mark_steps fuel lo hi step bits)
mark_steps-Marks zero lo hi step bits inside pos fits near enough =
    rw (mark_steps_over zero lo hi step bits (omega arith) (omega arith))
      (over-Marks bits lo hi step (omega arith))
mark_steps-Marks (suc fuel) lo hi step bits inside pos fits near enough =
    elim (Bool-cases (ltb hi lo)) [
      | inl over ↦
          let past : hi < lo = ground arith in
          rw (mark_steps_over (suc fuel) lo hi step bits past (omega arith))
            (over-Marks bits lo hi step past)
      | inr within ↦
          let le : lo ≤ hi = ground arith in
          rw (mark_steps-suc fuel lo hi step bits le inside (omega arith) (omega arith)) (
            step-Marks bits lo hi step _ le (omega arith) (
              mark_steps-Marks fuel (lo + step) hi step (set bits lo true)
                (omega (arith, inside, length-set_true bits lo)) pos fits (omega arith)
                (omega arith)))
    ]

-- The loop ends without a panic where its first sum does not overflow.
mark_steps-ends :
    (lo hi step : ℕ) (bits : List Bool)
    → lo ≤ hi
    → hi < length bits
    → length bits ≤ 60
    → 0 < step
    → lo + step < 2 ^ 63
    → (bits' : List Bool) × (mark_steps (suc hi) lo hi step bits ≡ some bits')
mark_steps-ends lo hi step bits le inside short pos fits = elim (Bool-cases (leb step hi)) [
  | inl near ↦
      let small : step ≤ hi = ground arith in
      let m =
        mark_steps-Marks (suc hi) lo hi step bits inside pos (omega arith) (omega arith)
          (omega arith) in
      (m.result, m.ends)
  | inr far ↦
      let big : hi < step = ground arith in
      (
        set bits lo true,
        mark_steps-suc hi lo hi step bits le inside (omega arith) (omega arith)
            ∙ mark_steps_over hi (lo + step) hi step (set bits lo true) (omega arith) (omega arith),
      )
]

-- And it panics where that sum overflows: the next index is negative.
mark_steps-overflows :
    (lo hi step : ℕ) (bits : List Bool)
    → lo ≤ hi
    → hi < length bits
    → length bits ≤ 60
    → step < 2 ^ 63
    → 2 ^ 63 ≤ lo + step
    → mark_steps (suc hi) lo hi step bits ≡ none
unfolding mark_steps
mark_steps-overflows lo zero step bits le inside short fits high = absurd (omega arith)
mark_steps-overflows lo (suc hi) step bits le inside short fits high =
    let within : less_word (suc hi) (lo + step) ≡ false = ground arith in
    let negative : is_negative (lo + step) ≡ true = ground arith in
    mark_steps-suc (suc hi) lo (suc hi) step bits le inside (omega arith) fits
    ∙ rw (within, negative) refl

-- A part that starts within its bounds, in a field of at most 60 places, makes `parseField` panic if
-- and only if the sum of its lower bound and its step, which are not negative, overflows int.
pub apply_part-overflow :
    (p : Part) (f : Field)
    → p.lo ≤ p.hi
    → p.hi < length f.set
    → length f.set ≤ 60
    → 0 < p.step
    → p.step < 2 ^ 63
    → (apply_part p f ≡ crash) ↔ (2 ^ 63 ≤ p.lo + p.step)
unfolding apply_part marked
apply_part-overflow p f le inside short pos fits = (to, from)
  where
    from : 2 ^ 63 ≤ p.lo + p.step → apply_part p f ≡ crash
    from high = rw (mark_steps-overflows p.lo p.hi p.step f.set le inside short fits high) refl

    to : apply_part p f ≡ crash → 2 ^ 63 ≤ p.lo + p.step
    to e = elim (Bool-cases (leb (2 ^ 63) (p.lo + p.step))) [
      | inl high ↦ ground arith
      | inr low ↦
          let (bits, ends) =
            mark_steps-ends p.lo p.hi p.step f.set le inside short pos (ground arith) in
          absurd (ground arith)
    ]
