-- ===== src/Scheduler/Wrappers/Fields.antt =====
-- The fields of the expressions that the scheduler writes.
use jobx.Prelude.{
  ℕ, zero, suc, ◌-◌, ◌^◌, ◌<◌, ◌≤◌, ◌≡◌, ◌≢◌, refl, ap, ◌∙◌, Bool, true, false, List, [], ◌∷◌, some,
  arith, length, set, leb, ◌&&◌, if◌then◌else◌, Bool-cases, inl, inr, All, ◌⊎◌,
}
use jobx.Text.{Text}
use jobx.Clock.{Word, is_negative}
use jobx.Cron.{
  Field, no_bits, empty_field, Part, Parsed, parsed, invalid, ◌>>=◌, mark_steps, value_of, range_of,
  part_of_base, parse_part, apply_part, marked, parse_parts, parse_field,
}
use jobx.Cron.Strings.{atoi, contains_byte, split_at}
use jobx.Scheduler.Wrappers.{decimal}
use jobx.Scheduler.Wrappers.Decimals.{IsDigit, IsNumeral, small-IsNumeral, atoi-digits_before}

-- The field of a single value.
abbrev pub only : ℕ → Field
only n = record { set = set (no_bits 60) n true; all = false }

mark_one :
    (n : ℕ) (bits : List Bool)
    → n < length bits
    → length bits ≤ 60
    → mark_steps (suc n) n n 1 bits ≡ some (set bits n true)
unfolding mark_steps
mark_one zero bits h k = ground arith
mark_one (suc n) bits h k = ground arith

no_byte : (b : ℕ) (w : Text) → All IsDigit w → b < 48 → contains_byte b w ≡ false
no_byte b [] h low = refl
no_byte b (c ∷ w) ((x, y), h) low = rw (no_byte b w h low) (ground arith)

one_piece : (w : Text) → contains_byte 44 w ≡ false → split_at 44 w ≡ w ∷ []
one_piece [] h = refl
one_piece (c ∷ w) h = rw (one_piece w (ground arith)) (ground arith)

not_byte : (b : ℕ) (w : Text) → All IsDigit w → (b < 48) ⊎ (57 < b) → w ≢ b ∷ []
not_byte b [] h out e = absurd (ground arith)
not_byte b (c ∷ w) ((x, y), h) out e = elim out [ inl low ↦ ground arith | inr high ↦ ground arith ]

numeral_part :
    (w : Text) (min max : ℕ) → IsNumeral w → parse_part w min max ≡ value_of (atoi w) min max 1
unfolding parse_part part_of_base
numeral_part w min max h =
    let no_slash = no_byte 47 w h.digits (omega arith) in
    let no_minus = no_byte 45 w h.digits (omega arith) in
    let not_any = not_byte 63 w h.digits (inr (omega arith)) in
    let not_star = not_byte 42 w h.digits (inl (omega arith)) in ground arith

negative_part : (w : Text) (min max : ℕ) → IsNumeral w → parse_part (45 ∷ w) min max ≡ invalid
unfolding parse_part part_of_base range_of
negative_part w min max h =
    let no_slash = no_byte 47 w h.digits (omega arith) in
    let not_any : 45 ∷ w ≢ 63 ∷ [] = λ e. ground arith in
    let not_star : 45 ∷ w ≢ 42 ∷ [] = λ e. ground arith in ground arith

-- `min ≤ w` and `w ≤ max`.
abbrev pub fits : Word → ℕ → ℕ → Bool
fits w min max = leb min w && leb w max

value_of-fits :
    (w : Word) (min max : ℕ)
    → max < 60
    → fits w min max ≡ true
    → value_of (some w) min max 1 ≡ parsed (record { lo = w; hi = w; step = 1; star = false })
unfolding value_of
value_of-fits w min max h e = ground arith

value_of-misfit :
    (w : Word) (min max : ℕ)
    → min < 60
    → max < 60
    → fits w min max ≡ false
    → value_of (some w) min max 1 ≡ invalid
unfolding value_of
value_of-misfit w min max h k e = ground arith

apply_part-value :
    (w : ℕ) (f : Field)
    → w < length f.set
    → length f.set ≤ 60
    → apply_part (record { lo = w; hi = w; step = 1; star = false }) f
      ≡ parsed (record { set = set f.set w true; all = f.all })
unfolding apply_part marked
apply_part-value w f h k = rw (mark_one w f.set h k) refl

-- A text without a comma is a single part.
parse_field-part :
    (w : Text) (min max : ℕ) (r : Parsed Part)
    → contains_byte 44 w ≡ false
    → parse_part w min max ≡ r
    → parse_field w min max ≡ (r >>= λ p. apply_part p empty_field >>= parse_parts [] min max)
unfolding parse_field parse_parts
parse_field-part w min max r h e = rw (one_piece w h, e) refl

pub if_true : {A : Type 0} (b : Bool) (x y : A) → b ≡ true → x ≡ (if b then x else y)
if_true true x y h = refl
if_true false x y h = absurd (ground arith)

pub if_false : {A : Type 0} (b : Bool) (x y : A) → b ≡ false → y ≡ (if b then x else y)
if_false false x y h = refl
if_false true x y h = absurd (ground arith)

numeral-field :
    (t : Text) (w min max : ℕ)
    → IsNumeral t
    → atoi t ≡ some w
    → min < 60
    → max < 60
    → parse_field t min max ≡ (if fits w min max then parsed (only w) else invalid)
unfolding parse_parts
numeral-field t w min max h e low high =
    let no_comma = no_byte 44 t h.digits (omega arith) in
    let part = numeral_part t min max h ∙ ap (λ a. value_of a min max 1) e in
    elim (Bool-cases (fits w min max)) [
      | inl yes_fits ↦
          parse_field-part t min max _ no_comma (part ∙ value_of-fits w min max high yes_fits)
          ∙ (ap (λ p. p >>= parse_parts [] min max)
                (apply_part-value w empty_field (ground arith) (omega arith))
              ∙ if_true (fits w min max) (parsed (only w)) invalid yes_fits)
      | inr no_fits ↦
          parse_field-part t min max _ no_comma (part ∙ value_of-misfit w min max low high no_fits)
          ∙ if_false (fits w min max) (parsed (only w)) invalid no_fits
    ]

-- A field that is a number stands for that number, if it is within the bounds of the field, and else
-- the field is refused.
pub parse_field-decimal :
    (w : Word) (min max : ℕ)
    → w < 2 ^ 64
    → min < 60
    → max < 60
    → parse_field (decimal w) min max ≡ (if fits w min max then parsed (only w) else invalid)
unfolding decimal
parse_field-decimal w min max h low high = elim (Bool-cases (is_negative w)) [
  | inl neg ↦
      let digits = small-IsNumeral (2 ^ 64 - w) (ground arith) in
      let no_comma = no_byte 44 _ digits.digits (omega arith) in
      rw neg (
        parse_field-part _ min max _ (rw no_comma refl) (negative_part _ min max digits)
        ∙ if_false (fits w min max) (parsed (only w)) invalid (ground arith))
  | inr pos ↦ rw pos (
      numeral-field _ w min max (small-IsNumeral w h) (atoi-digits_before w (ground arith)) low
        high)
]
