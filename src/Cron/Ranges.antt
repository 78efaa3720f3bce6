-- ===== src/Cron/Ranges.antt =====
-- cron/cron.go: the fields that `parseField` accepts stay within their bounds.
use jobx.Prelude.{
  ℕ, zero, suc, ◌+◌, ◌%◌, ◌^◌, ◌≤◌, ◌<◌, ◌≡◌, refl, Bool, true, false, ◌||◌, List, [], ◌∷◌, Option,
  none, some, arith, length, ite, set, leb, inl, inr, ◌==◌, Bool-cases, Option-cases,
}
use jobx.Text.{Text, text_discrete}
use jobx.Clock.{Word, is_negative}
use jobx.Cron.Strings.{atoi, less_word, contains_byte, cut_at, split_at}
use jobx.Cron.{
  bit, Field, empty_field, no_bits, Parsed, parsed, invalid, crash, ◌>>=◌, Part, range_of, value_of,
  part_of_base, part_with_step, is_star, parse_part, marked, apply_part, parse_parts, parse_field,
  mark_steps,
}
use jobx.Cron.Steps.{bit-set}

-- A part within the bounds of its field.
record IsWithin (min max : ℕ) (p : Part) : Type 0 where
  low : min ≤ p.lo
  order : p.lo ≤ p.hi
  high : p.hi ≤ max
  jump : p.step < 2 ^ 63

abbrev Within : ℕ → ℕ → Parsed Part → Type 0
Within min max (parsed p) = IsWithin min max p
Within min max invalid = Unit
Within min max crash = Unit

range_of-Within :
    (a b : Option Word) (min max step : ℕ)
    → max < 2 ^ 63
    → min ≤ max
    → step < 2 ^ 63
    → Within min max (range_of a b min max step)
unfolding range_of
range_of-Within none b min max step h le fits = tt
range_of-Within (some a) none min max step h le fits = tt
range_of-Within (some a) (some b) min max step h le fits =
    elim (Bool-cases (less_word a min || less_word max b || less_word b a)) [
      | inl bad ↦ rw (bad, range_of) tt
      | inr good ↦
          rw (good, range_of)
            (record { low = ground arith; order = ground arith; high = ground arith; jump = fits })
    ]

value_of-Within :
    (n : Option Word) (min max step : ℕ)
    → max < 2 ^ 63
    → min ≤ max
    → step < 2 ^ 63
    → Within min max (value_of n min max step)
unfolding value_of
value_of-Within none min max step h le fits = tt
value_of-Within (some n) min max step h le fits =
    elim (Bool-cases (less_word n min || less_word max n)) [
      | inl bad ↦ rw (bad, value_of) tt
      | inr good ↦
          rw (good, value_of)
            (record { low = ground arith; order = omega arith; high = ground arith; jump = fits })
    ]

part_of_base-Within :
    (base : Text) (min max step : ℕ)
    → max < 2 ^ 63
    → min ≤ max
    → step < 2 ^ 63
    → Within min max (part_of_base base min max step)
unfolding part_of_base
part_of_base-Within base min max step h le fits = elim (Bool-cases (is_star base)) [
  | inl star ↦
      rw (star, part_of_base)
        (record { low = omega arith; order = le; high = omega arith; jump = fits })
  | inr other ↦ elim (Bool-cases (contains_byte 45 base)) [
    | inl dash ↦
        rw (other, dash, part_of_base)
          (range_of-Within (atoi (cut_at 45 base).0) (atoi (cut_at 45 base).1) min max step h le
            fits)
    | inr plain ↦
        rw (other, plain, part_of_base) (value_of-Within (atoi base) min max step h le fits)
  ]
]

part_with_step-Within :
    (n : Option Word) (base : Text) (min max : ℕ)
    → max < 2 ^ 63
    → min ≤ max
    → Within min max (part_with_step n base min max)
unfolding part_with_step
part_with_step-Within none base min max h le = tt
part_with_step-Within (some n) base min max h le = elim (Bool-cases (n == 0 || is_negative n)) [
  | inl bad ↦ rw (bad, part_with_step) tt
  | inr good ↦ rw (good, part_with_step) (part_of_base-Within base min max n h le (ground arith))
]

parse_part-Within :
    (part : Text) (min max : ℕ)
    → max < 2 ^ 63
    → min ≤ max
    → Within min max (parse_part part min max)
unfolding parse_part
parse_part-Within part min max h le =
    let part' = ite (text_discrete part (63 ∷ [])) (42 ∷ []) part in
    elim (Bool-cases (contains_byte 47 part')) [
      | inl slash ↦
          rw (slash, parse_part)
            (part_with_step-Within (atoi (cut_at 47 part').1) (cut_at 47 part').0 min max h le)
      | inr plain ↦ rw (plain, parse_part) (part_of_base-Within part' min max 1 h le (omega arith))
    ]

-- Each bit that is on is between the bounds.
abbrev pub IsInRange : ℕ → ℕ → List Bool → Type 0
IsInRange min max bits = (j : ℕ) → bit bits j ≡ true → (min ≤ j) × (j ≤ max)

set-IsInRange :
    (min max i : ℕ) (bits : List Bool)
    → min ≤ i
    → i ≤ max
    → i < length bits
    → IsInRange min max bits
    → IsInRange min max (set bits i true)
set-IsInRange min max i bits low high inside r j e = elim ((bit-set bits i j inside).0 e) [
  | inl was ↦ r j was
  | inr here ↦ (omega (arith, here), omega (arith, here))
]

mark_steps-IsInRange :
    (fuel i hi step min max : ℕ) (bits bits' : List Bool)
    → min ≤ i
    → hi ≤ max
    → max < 2 ^ 63
    → step < 2 ^ 63
    → IsInRange min max bits
    → mark_steps fuel i hi step bits ≡ some bits'
    → IsInRange min max bits'
unfolding mark_steps
mark_steps-IsInRange zero i hi step min max bits bits' low high small fits r e =
    let same : bits ≡ bits' = ground arith in rw (← same) r
mark_steps-IsInRange (suc fuel) i hi step min max bits bits' low high small fits r e =
    elim (Bool-cases (less_word hi i)) [
      | inl over ↦ let same : bits ≡ bits' = ground arith in rw (← same) r
      | inr within ↦ elim (Bool-cases (is_negative i || leb (length bits) i)) [
        | inl outside ↦ absurd (ground arith)
        | inr inside ↦
            let le : i ≤ hi = ground arith in
            mark_steps-IsInRange fuel ((i + step) % 2 ^ 64) hi step min max (set bits i true) bits'
              (omega arith) high small fits
              (set-IsInRange min max i bits low (omega arith) (ground arith) r) (ground arith)
      ]
    ]

apply_part-IsInRange :
    (p : Part) (f f' : Field) (min max : ℕ)
    → max < 2 ^ 63
    → IsWithin min max p
    → IsInRange min max f.set
    → apply_part p f ≡ parsed f'
    → IsInRange min max f'.set
unfolding apply_part marked
apply_part-IsInRange p f f' min max small w r e =
    elim (Option-cases (mark_steps (suc p.hi) p.lo p.hi p.step f.set)) [
      | inl failed ↦ absurd (ground arith)
      | inr (bits, found) ↦
          let same : bits ≡ f'.set = ground arith in
          rw (← same) (
            mark_steps-IsInRange (suc p.hi) p.lo p.hi p.step min max f.set bits w.low w.high small
              w.jump r found)
    ]

pub bind_parsed :
    {A B : Type 0} (r : Parsed A) (f : A → Parsed B) (b : B)
    → r >>= f ≡ parsed b
    → (a : A) × (r ≡ parsed a) × (f a ≡ parsed b)
bind_parsed (parsed a) f b e = (a, refl, e)
bind_parsed invalid f b e = absurd (ground arith)
bind_parsed crash f b e = absurd (ground arith)

part-IsWithin :
    (r : Parsed Part) (p : Part) (min max : ℕ)
    → Within min max r
    → r ≡ parsed p
    → IsWithin min max p
part-IsWithin r p min max w e = rw e at w

parse_parts-IsInRange :
    (parts : List Text) (min max : ℕ) (f f' : Field)
    → max < 2 ^ 63
    → min ≤ max
    → IsInRange min max f.set
    → parse_parts parts min max f ≡ parsed f'
    → IsInRange min max f'.set
unfolding parse_parts
parse_parts-IsInRange [] min max f f' h le r e = let same : f ≡ f' = ground arith in rw (← same) r
parse_parts-IsInRange (part ∷ parts) min max f f' h le r e =
    let (p, read, rest) = bind_parsed (parse_part part min max) _ f' e in
    let (f₁, applied, last) = bind_parsed (apply_part p f) (parse_parts parts min max) f' rest in
    let w =
      part-IsWithin (parse_part part min max) p min max (parse_part-Within part min max h le)
        read in
    parse_parts-IsInRange parts min max f₁ f' h le
      (apply_part-IsInRange p f f₁ min max h w r applied) last

pub bit-no_bits : (n j : ℕ) → bit (no_bits n) j ≡ false
bit-no_bits zero j = refl
bit-no_bits (suc n) zero = refl
bit-no_bits (suc n) (suc j) = bit-no_bits n j

-- A field that `parseField` accepts has on only bits between its bounds, where the upper bound fits an
-- int and the lower one is not above it.
pub parse_field-IsInRange :
    (s : Text) (min max : ℕ) (f : Field)
    → max < 2 ^ 63
    → min ≤ max
    → parse_field s min max ≡ parsed f
    → IsInRange min max f.set
unfolding parse_field
parse_field-IsInRange s min max f h le e =
    parse_parts-IsInRange (split_at 44 s) min max empty_field f h le
      (λ j on. absurd (ground (arith, bit-no_bits 60 j))) e
