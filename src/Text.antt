-- ===== src/Text.antt =====
-- Go strings and byte slices as the lists of their bytes; job ids and names are such texts.
use jobx.Prelude.{ℕ, List, ℕ_discrete}

-- A string, or the content of a `[]byte`.
abbrev pub Text : Type 0
Text = List ℕ

-- Go's `==` on strings.
unfoldable pub text_discrete : Discrete Text
unfolding ℕ_discrete
text_discrete = hlevel ℕ_discrete
