-- ===== src/Cron/Search.antt =====
-- cron/cron.go: `nextInSet`.
use jobx.Prelude.{
  ℕ, zero, suc, ◌+◌, ◌-◌, ◌≤◌, ◌<◌, ◌≡◌, refl, sym, ap, ◌∙◌, Bool, true, false, List, [], ◌∷◌,
  Option, none, some, arith,
}
use jobx.Cron.{bit, Field, next_from, drop_bits, next_in_set}

-- The first bit from `v` on, or that there is none.
abbrev pub IsNext : Field → ℕ → Option ℕ → Type 0
IsNext f v none = (j : ℕ) → v ≤ j → bit f.set j ≡ false
IsNext f v (some n) =
    (v ≤ n) × (bit f.set n ≡ true) × ((j : ℕ) → v ≤ j → j < n → bit f.set j ≡ false)

-- The same of a list whose first bit has the index `i`.
abbrev IsFirst : ℕ → List Bool → Option ℕ → Type 0
IsFirst i bits none = (k : ℕ) → bit bits k ≡ false
IsFirst i bits (some n) =
    (k : ℕ) × (n ≡ i + k) × (bit bits k ≡ true) × ((j : ℕ) → j < k → bit bits j ≡ false)

later-IsFirst :
    (i : ℕ) (bits : List Bool) (o : Option ℕ) → IsFirst (suc i) bits o → IsFirst i (false ∷ bits) o
later-IsFirst i bits none h = off
  where
    off : (k : ℕ) → bit (false ∷ bits) k ≡ false
    off zero = refl
    off (suc k) = h k
later-IsFirst i bits (some n) (k, e, on, off) = (suc k, omega (arith, e), on, before)
  where
    before : (j : ℕ) → j < suc k → bit (false ∷ bits) j ≡ false
    before zero lt = refl
    before (suc j) lt = off j (omega arith)

next_from-IsFirst : (i : ℕ) (bits : List Bool) → IsFirst i bits (next_from i bits)
unfolding next_from
next_from-IsFirst i [] = λ k. refl
next_from-IsFirst i (true ∷ bits) = (0, omega arith, refl, λ j lt. absurd (omega arith))
next_from-IsFirst i (false ∷ bits) =
    later-IsFirst i bits (next_from (suc i) bits) (next_from-IsFirst (suc i) bits)

bit_at : (bits : List Bool) (i j : ℕ) → i ≡ j → bit bits i ≡ bit bits j
bit_at bits i j e = ap (bit bits) e

bit-drop_bits : (v k : ℕ) (bits : List Bool) → bit (drop_bits v bits) k ≡ bit bits (v + k)
bit-drop_bits zero k bits = bit_at bits k (0 + k) (omega arith)
bit-drop_bits (suc v) k [] = refl
bit-drop_bits (suc v) k (b ∷ bits) =
    bit-drop_bits v k bits ∙ bit_at (b ∷ bits) (suc (v + k)) (suc v + k) (omega arith)

first-IsNext : (f : Field) (v : ℕ) (o : Option ℕ) → IsFirst v (drop_bits v f.set) o → IsNext f v o
first-IsNext f v none h = λ j le.
    let split : v + (j - v) ≡ j = omega arith in
    ap (bit f.set) (sym split) ∙ sym (bit-drop_bits v (j - v) f.set) ∙ h (j - v)
first-IsNext f v (some n) (k, e, on, off) = (
  omega (arith, e),
  ap (bit f.set) e ∙ sym (bit-drop_bits v k f.set) ∙ on,
  λ j le lt.
      let split : v + (j - v) ≡ j = omega arith in
      ap (bit f.set) (sym split)
      ∙ sym (bit-drop_bits v (j - v) f.set)
      ∙ off (j - v) (omega (arith, e)),
)

-- `nextInSet` gives the least index from `v` on whose bit is on, and -1 only if there is none.
pub next_in_set-IsNext : (f : Field) (v : ℕ) → IsNext f v (next_in_set f v)
unfolding next_in_set
next_in_set-IsNext f v = first-IsNext f v _ (next_from-IsFirst v (drop_bits v f.set))
