-- ===== src/Cron/Strings.antt =====
-- What cron/cron.go uses of Go's strings and strconv, on bytes.
use jobx.Prelude.{
  ℕ, zero, suc, ◌+◌, ◌-◌, ◌*◌, ◌^◌, Bool, true, false, ◌||◌, ◌&&◌, List, [], ◌∷◌, Option, none,
  some, ltb, leb, ◌==◌, if◌then◌else◌,
}
use jobx.Text.{Text}
use jobx.Clock.{Word, is_negative}

-- `strings.Contains` of one byte.
abbrev pub contains_byte : ℕ → Text → Bool
contains_byte b [] = false
contains_byte b (c ∷ s) = c == b || contains_byte b s

-- `strings.SplitN(s, sep, 2)` where the separator occurs.
abbrev pub cut_at : ℕ → Text → Text × Text
cut_at b [] = ([], [])
cut_at b (c ∷ s) = let (l, r) = cut_at b s in if c == b then ([], s) else (c ∷ l, r)

-- A byte before the first of the pieces.
abbrev grown : ℕ → List Text → List Text
grown c [] = (c ∷ []) ∷ []
grown c (s ∷ rest) = (c ∷ s) ∷ rest

-- `strings.Split`.
abbrev pub split_at : ℕ → Text → List Text
split_at b [] = [] ∷ []
split_at b (c ∷ s) = let rest = split_at b s in if c == b then [] ∷ rest else grown c rest

-- The value of decimal digits, if they are digits.
abbrev pub digits : ℕ → Text → Option ℕ
digits n [] = some n
digits n (c ∷ s) =
    let rest = digits (10 * n + (c - 48)) s in if ltb c 48 || ltb 57 c then none else rest

abbrev number : Text → Option ℕ
number [] = none
number (c ∷ s) = digits 0 (c ∷ s)

abbrev positive : Option ℕ → Option Word
positive none = none
positive (some n) = if ltb n (2 ^ 63) then some n else none

abbrev negative : Option ℕ → Option Word
negative none = none
negative (some n) = if n == 0 then some 0 else if leb n (2 ^ 63) then some (2 ^ 64 - n) else none

-- `strconv.Atoi`, without its error; 43 is `+` and 45 is `-`.
abbrev pub atoi : Text → Option Word
atoi [] = none
atoi (c ∷ s) =
    if c == 45
    then negative (number s)
    else if c == 43
    then positive (number s)
    else positive (number (c ∷ s))

-- `x < y` on int.
abbrev pub less_word : Word → Word → Bool
less_word x y =
    if is_negative x
    then (if is_negative y then ltb x y else true)
    else (if is_negative y then false else ltb x y)

-- The spaces of `unicode.IsSpace` in UTF-8, of two bytes and of three.
abbrev is_space_1 : ℕ → Bool
is_space_1 a = a == 32 || (ltb 8 a && ltb a 14)

abbrev is_space_2 : ℕ → ℕ → Bool
is_space_2 a b = a == 194 && (b == 133 || b == 160)

abbrev is_space_3 : ℕ → ℕ → ℕ → Bool
is_space_3 a b c =
    (a == 225 && b == 154 && c == 128)
    || (a == 226 && b == 128 && ((ltb 127 c && ltb c 139) || c == 168 || c == 169 || c == 175))
    || (a == 226 && b == 129 && c == 159)
    || (a == 227 && b == 128 && c == 128)

-- How many bytes the space takes that begins with the byte; 0 if none does.
abbrev pub space_width : ℕ → Text → ℕ
space_width a [] = if is_space_1 a then 1 else 0
space_width a (b ∷ []) = if is_space_1 a then 1 else if is_space_2 a b then 2 else 0
space_width a (b ∷ c ∷ s) =
    if is_space_1 a then 1 else if is_space_2 a b then 2 else if is_space_3 a b c then 3 else 0

abbrev pub flush : Text → List Text → List Text
flush [] rest = rest
flush (c ∷ s) rest = (c ∷ s) ∷ rest

abbrev pub placed : ℕ → ℕ → (ℕ → Text × List Text) → Text × List Text
placed zero c go = let (front, rest) = go 0 in (c ∷ front, rest)
placed (suc n) c go = let (front, rest) = go n in ([], flush front rest)

-- The field at the front, and the fields after it; the first bytes are skipped as the rest of a
-- space.
abbrev pub words : ℕ → Text → Text × List Text
words skip [] = ([], [])
words (suc skip) (c ∷ s) = words skip s
words zero (c ∷ s) = placed (space_width c s) c (λ k. words k s)

-- `strings.Fields`.
abbrev pub fields : Text → List Text
fields s = let (front, rest) = words 0 s in flush front rest
