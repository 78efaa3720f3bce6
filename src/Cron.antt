-- ===== src/Cron.antt =====
-- cron/cron.go: the parser of cron expressions.
pub mod Strings
pub mod Steps
pub mod Ranges
pub mod Whole
pub mod Search
pub mod Calendar
pub mod Next
use jobx.Prelude.{
  ◌%◌, ℕ, zero, suc, ◌+◌, ◌-◌, ◌*◌, ◌^◌, Bool, true, false, not, ◌||◌, ◌&&◌, List, [], ◌∷◌, ◌++◌,
  Option, none, some, length, get_elem?, set, ltb, leb, ◌==◌, if◌then◌else◌, ite,
}
use jobx.Text.{Text, text_discrete}
use jobx.Clock.{Word, is_negative}
use jobx.Cron.Strings.{contains_byte, cut_at, split_at, atoi, less_word, fields}

-- `field`; `set` is an array of 60.
pub record Field : Type 0 where
  pub set : List Bool
  pub all : Bool

-- A read of the array `set`; outside it there is nothing to read.
abbrev pub bit : List Bool → ℕ → Bool
bit [] i = false
bit (b ∷ bits) zero = b
bit (b ∷ bits) (suc i) = bit bits i

abbrev pub no_bits : ℕ → List Bool
no_bits zero = []
no_bits (suc n) = false ∷ no_bits n

-- `var f field`.
abbrev pub empty_field : Field
empty_field = record { set = no_bits 60; all = false }

pub record Expr : Type 0 where
  pub raw : Text
  pub sec : Field
  pub min : Field
  pub hour : Field
  pub dom : Field
  pub month : Field
  pub dow : Field

-- How parsing ends: a value, the error of `parseError`, or a panic.
pub data Parsed {ℓ} (A : Type ℓ) : Type ℓ where
  parsed : A → Parsed A
  invalid : Parsed A
  crash : Parsed A

infixl 5 ◌>>=◌
abbrev pub ◌>>=◌ : {A B : Type 0} → Parsed A → (A → Parsed B) → Parsed B
parsed a >>= f = f a
invalid >>= f = invalid
crash >>= f = crash

-- `for i := lo; i <= hi; i += step { f.set[i] = true }`, with the counter, the bound and the step as
-- words; `none` is the panic of an index that is negative or beyond the array. The counter grows until
-- it passes the bound or overflows, so that `hi + 1` rounds are enough.
unfoldable pub mark_steps : ℕ → Word → Word → Word → List Bool → Option (List Bool)
mark_steps zero i hi step bits = some bits
mark_steps (suc fuel) i hi step bits =
    let rest = mark_steps fuel ((i + step) % 2 ^ 64) hi step (set bits i true) in
    if less_word hi i
    then some bits
    else if is_negative i || leb (length bits) i
    then none
    else rest

-- A part of a field: its bounds, its step, and whether it is a star.
pub record Part : Type 0 where
  pub lo : ℕ
  pub hi : ℕ
  pub step : ℕ
  pub star : Bool

unfoldable pub range_of : Option Word → Option Word → ℕ → ℕ → ℕ → Parsed Part
range_of none b min max step = invalid
range_of (some a) none min max step = invalid
range_of (some a) (some b) min max step =
    if less_word a min || less_word max b || less_word b a
    then invalid
    else parsed (record { lo = a; hi = b; step = step; star = false })

unfoldable pub value_of : Option Word → ℕ → ℕ → ℕ → Parsed Part
value_of none min max step = invalid
value_of (some n) min max step =
    if less_word n min || less_word max n
    then invalid
    else parsed (record { lo = n; hi = n; step = step; star = false })

abbrev pub is_star : Text → Bool
is_star base = ite (text_discrete base (42 ∷ [])) true false

-- The `switch` of `parseField`; 42 is `*` and 45 is `-`.
unfoldable pub part_of_base : Text → ℕ → ℕ → ℕ → Parsed Part
unfolding range_of value_of
part_of_base base min max step =
    if is_star base
    then parsed (record { lo = min; hi = max; step = step; star = true })
    else if contains_byte 45 base
    then (let (a, b) = cut_at 45 base in range_of (atoi a) (atoi b) min max step)
    else value_of (atoi base) min max step

part_with_step : Option Word → Text → ℕ → ℕ → Parsed Part
unfolding part_of_base
part_with_step none base min max = invalid
part_with_step (some n) base min max =
    if n == 0 || is_negative n then invalid else part_of_base base min max n

-- A round of the loop of `parseField` up to its inner loop; 63 is `?` and 47 is `/`.
unfoldable pub parse_part : Text → ℕ → ℕ → Parsed Part
unfolding part_with_step
parse_part part min max =
    let part' = ite (text_discrete part (63 ∷ [])) (42 ∷ []) part in
    if contains_byte 47 part'
    then (let (base, step) = cut_at 47 part' in part_with_step (atoi step) base min max)
    else part_of_base part' min max 1

unfoldable pub marked : Option (List Bool) → Bool → Parsed Field
marked none all = crash
marked (some bits) all = parsed (record { set = bits; all = all })

-- The effect of a part on the field.
unfoldable pub apply_part : Part → Field → Parsed Field
unfolding marked
apply_part p f = marked (mark_steps (suc p.hi) p.lo p.hi p.step f.set) (p.star || f.all)

-- The loop of `parseField` over the parts.
unfoldable pub parse_parts : List Text → ℕ → ℕ → Field → Parsed Field
parse_parts [] min max f = parsed f
parse_parts (part ∷ parts) min max f =
    parse_part part min max >>= λ p. apply_part p f >>= parse_parts parts min max

-- `parseField`; 44 is the comma.
unfoldable pub parse_field : Text → ℕ → ℕ → Parsed Field
unfolding parse_parts
parse_field s min max = parse_parts (split_at 44 s) min max empty_field

-- The seconds of an expression of five fields.
abbrev pub second_zero : Field
second_zero = record { set = true ∷ no_bits 59; all = false }

-- The five fields that end an expression.
unfoldable pub parse_rest : Text → Field → List Text → Parsed Expr
unfolding parse_field
parse_rest raw sec (p₁ ∷ p₂ ∷ p₃ ∷ p₄ ∷ p₅ ∷ []) = parse_field p₁ 0 59 >>= λ min.
    parse_field p₂ 0 23 >>= λ hour. parse_field p₃ 1 31 >>= λ dom. parse_field p₄ 1 12 >>= λ month.
    parse_field p₅ 0 6 >>= λ dow.
    parsed
      (record { raw = raw; sec = sec; min = min; hour = hour; dom = dom; month = month; dow = dow })
parse_rest raw sec _ = invalid

unfoldable pub parse_listed : Text → List Text → Parsed Expr
unfolding parse_rest
parse_listed raw (p₀ ∷ p₁ ∷ p₂ ∷ p₃ ∷ p₄ ∷ p₅ ∷ []) =
    parse_field p₀ 0 59 >>= λ sec. parse_rest raw sec (p₁ ∷ p₂ ∷ p₃ ∷ p₄ ∷ p₅ ∷ [])
parse_listed raw parts = parse_rest raw second_zero parts

-- `Parse`.
unfoldable pub parse : Text → Parsed Expr
unfolding parse_listed
parse expr = parse_listed expr (fields expr)

-- `nextInSet`, where -1 is `none`: the bits from `v` on, and their first index.
pub next_from : ℕ → List Bool → Option ℕ
next_from i [] = none
next_from i (true ∷ bits) = some i
next_from i (false ∷ bits) = next_from (suc i) bits

abbrev pub drop_bits : ℕ → List Bool → List Bool
drop_bits zero bits = bits
drop_bits (suc n) [] = []
drop_bits (suc n) (b ∷ bits) = drop_bits n bits

unfoldable pub next_in_set : Field → ℕ → Option ℕ
unfolding next_from
next_in_set f v = next_from v (drop_bits v f.set)

-- `dayMatch`.
unfoldable pub day_match : Bool → Bool → Bool → Bool → Bool
day_match true true dom_ok dow_ok = true
day_match true false dom_ok dow_ok = dow_ok
day_match false true dom_ok dow_ok = dom_ok
day_match false false dom_ok dow_ok = dom_ok || dow_ok
