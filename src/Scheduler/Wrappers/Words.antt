-- ===== src/Scheduler/Wrappers/Words.antt =====
-- The words of the expressions that the scheduler writes.
use jobx.Prelude.{
  ℕ, ◌<◌, ◌≡◌, ◌≢◌, refl, List, [], ◌∷◌, ◌++◌, arith, All, ◌-◌, ◌^◌, Bool-cases, inl, inr,
}
use jobx.Text.{Text}
use jobx.Cron.Strings.{fields, words, flush, space_width}
use jobx.Clock.{Word, is_negative}
use jobx.Scheduler.Wrappers.{spaced, decimal}
use jobx.Scheduler.Wrappers.Decimals.{IsDigit, small-IsNumeral}

-- A word of printable ASCII without a space.
pub record IsWord (w : Text) : Type 0 where
  pub full : w ≢ []
  pub plain : All (λ c. (32 < c) × (c < 128)) w

space_width-plain : (c : ℕ) (s : Text) → 32 < c → c < 128 → space_width c s ≡ 0
space_width-plain c [] h k = ground arith
space_width-plain c (b ∷ []) h k = ground arith
space_width-plain c (b ∷ d ∷ s) h k = ground arith

space_width-space : (s : Text) → space_width 32 s ≡ 1
space_width-space [] = refl
space_width-space (b ∷ []) = refl
space_width-space (b ∷ d ∷ s) = refl

words-plain : (w : Text) → All (λ c. (32 < c) × (c < 128)) w → words 0 w ≡ (w, [])
words-plain [] h = refl
words-plain (c ∷ w) ((low, high), h) = rw (space_width-plain c w low high, words-plain w h) refl

words-spaced :
    (w s : Text) → All (λ c. (32 < c) × (c < 128)) w → words 0 (w ++ (32 ∷ s)) ≡ (w, fields s)
words-spaced [] s h = rw (space_width-space s) refl
words-spaced (c ∷ w) s ((low, high), h) =
    rw (space_width-plain c (w ++ (32 ∷ s)) low high, words-spaced w s h) refl

flush-full : (w : Text) (ws : List Text) → w ≢ [] → flush w ws ≡ w ∷ ws
flush-full [] ws h = absurd (h refl)
flush-full (c ∷ w) ws h = refl

-- `strings.Fields` finds the words that were written with a space between them.
pub fields-spaced :
    (w : Text) (ws : List Text) → IsWord w → All IsWord ws → fields (spaced w ws) ≡ w ∷ ws
unfolding spaced
fields-spaced w [] h hs = rw (words-plain w h.plain) (flush-full w [] h.full)
fields-spaced w (v ∷ ws) h (k, hs) =
    rw (words-spaced w (spaced v ws) h.plain, fields-spaced v ws k hs)
      (flush-full w (v ∷ ws) h.full)

digit-plain : (w : Text) → All IsDigit w → All (λ c. (32 < c) × (c < 128)) w
digit-plain [] h = tt
digit-plain (c ∷ w) ((x, y), h) = ((omega arith, omega arith), digit-plain w h)

-- `%d` writes a word.
pub decimal-IsWord : (w : Word) → w < 2 ^ 64 → IsWord (decimal w)
unfolding decimal
decimal-IsWord w h = elim (Bool-cases (is_negative w)) [
  | inl neg ↦ rw neg (record {
    full = λ e. cc;
    plain = (
      (omega arith, omega arith),
      digit-plain _ (small-IsNumeral (2 ^ 64 - w) (ground arith)).digits,
    );
  })
  | inr pos ↦
      let k = small-IsNumeral w h in
      rw pos (record { full = k.full; plain = digit-plain _ k.digits })
]
