-- ===== src/Tests/Crons.antt =====
-- cron/cron.go at concrete inputs.
use jobx.Prelude.{ℕ, ◌-◌, ◌^◌, ◌≡◌, ◌↔◌, ◌≤◌, ◌+◌, refl, true, false, [], ◌∷◌, none, some, arith}
use jobx.Prelude.{set}
use jobx.Text.{Text, text_discrete}
use jobx.Cron.{
  Field, Part, crash, empty_field, no_bits, second_zero, Expr, parsed, mark_steps, parse_part,
  part_of_base, apply_part, parse_parts, parse_field, parse,
}
use jobx.Cron.Strings.{fields, atoi}
use jobx.Cron.Steps.{apply_part-overflow}
use jobx.Cron.Whole.{IsSound, parse-IsSound}

-- The fields of " 5\t*", and two fields with a wide space between.
two_fields : fields (32 ∷ 53 ∷ 9 ∷ 42 ∷ []) ≡ (53 ∷ []) ∷ (42 ∷ []) ∷ []
two_fields = refl

wide_space : fields (53 ∷ 226 ∷ 128 ∷ 131 ∷ 42 ∷ []) ≡ (53 ∷ []) ∷ (42 ∷ []) ∷ []
wide_space = refl

-- "-5", "+7" and "5x".
numbers :
    (atoi (45 ∷ 53 ∷ []) ≡ some (2 ^ 64 - 5))
    × (atoi (43 ∷ 55 ∷ []) ≡ some 7)
    × (atoi (53 ∷ 120 ∷ []) ≡ none)
numbers = (refl, refl, refl)

-- The part "1-5/9223372036854775807".
-- The part "1-5/9223372036854775807".
abbrev far_part : Part
far_part = record { lo = 1; hi = 5; step = 2 ^ 63 - 1; star = false }

apply_part-overflow_example :
    (apply_part far_part empty_field ≡ crash) ↔ (2 ^ 63 ≤ 1 + (2 ^ 63 - 1))
apply_part-overflow_example =
    apply_part-overflow far_part empty_field (omega arith) (omega arith) (omega arith) (omega arith)
      (omega arith)

-- The field "1-3/2".
abbrev one_and_three : Field
one_and_three = record { set = false ∷ true ∷ false ∷ true ∷ no_bits 56; all = false }

one_and_three_parsed : parse_field (49 ∷ 45 ∷ 51 ∷ 47 ∷ 50 ∷ []) 1 12 ≡ parsed one_and_three
unfolding parse_field parse_parts parse_part part_of_base apply_part mark_steps text_discrete
one_and_three_parsed = refl

-- "0 9 1 1 5": at nine o'clock.
abbrev pub nine : Text
nine = 48 ∷ 32 ∷ 57 ∷ 32 ∷ 49 ∷ 32 ∷ 49 ∷ 32 ∷ 53 ∷ []

abbrev pub only : ℕ → Field
only n = record { set = set (no_bits 60) n true; all = false }

abbrev pub at_nine : Expr
at_nine = record {
  raw = nine;
  sec = second_zero;
  min = only 0;
  hour = only 9;
  dom = only 1;
  month = only 1;
  dow = only 5;
}

pub nine_parsed : parse nine ≡ parsed at_nine
unfolding parse parse_field parse_parts parse_part part_of_base apply_part mark_steps text_discrete
nine_parsed = refl

parse-IsSound_example : IsSound at_nine
parse-IsSound_example = parse-IsSound nine at_nine nine_parsed
