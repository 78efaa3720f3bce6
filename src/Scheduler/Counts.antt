-- ===== src/Scheduler/Counts.antt =====
-- How often an entry stands in the map, in the hands of `Stop` and `Shutdown`, and closed.
use jobx.Prelude.{
  ℕ, zero, suc, ◌+◌, ◌≤◌, ◌<◌, ◌≡◌, refl, Bool, true, false, List, [], ◌∷◌, ◌++◌, Option, none,
  some, arith, length, get_elem?, set, ◌==◌, if◌then◌else◌, All,
}
use jobx.Prelude.Maps.{lookup, insert, delete}
use jobx.Text.{Text, text_discrete}
use jobx.Scheduler.{Cell, pointers}

abbrev pub one_if : Bool → ℕ
one_if true = 1
one_if false = 0

abbrev pub count : ℕ → List ℕ → ℕ
count p [] = 0
count p (q ∷ l) = one_if (q == p) + count p l

pub count-append : (p : ℕ) (k l : List ℕ) → count p (k ++ l) ≡ count p k + count p l
count-append p [] l = omega arith
count-append p (q ∷ k) l = omega (arith, count-append p k l)

pub count-insert_le :
    (p q : ℕ) (id : Text) (m : List (Text × ℕ))
    → count p (pointers (insert text_discrete id q m)) ≤ one_if (q == p) + count p (pointers m)
unfolding insert
count-insert_le p q id [] = omega arith
count-insert_le p q id ((j, r) ∷ m) = ground (arith, count-insert_le p q id m)

pub count-delete_le :
    (p : ℕ) (id : Text) (m : List (Text × ℕ))
    → count p (pointers (delete text_discrete id m)) ≤ count p (pointers m)
unfolding delete
count-delete_le p id [] = omega arith
count-delete_le p id ((j, r) ∷ m) = ground (arith, count-delete_le p id m)

-- Taking an entry off the map takes it off where it was found.
pub count-delete_found :
    (p q : ℕ) (id : Text) (m : List (Text × ℕ))
    → lookup text_discrete id m ≡ some q
    → one_if (q == p) + count p (pointers (delete text_discrete id m)) ≤ count p (pointers m)
unfolding lookup delete
count-delete_found p q id [] h = cc
count-delete_found p q id ((j, r) ∷ m) h =
    ground (arith, count-delete_found p q id m, count-delete_le p id m)

-- Whether the channel of a cell is closed.
abbrev pub closed_of : Option Cell → Bool
closed_of none = false
closed_of (some c) = c.stop_closed

abbrev pub closed_at : ℕ → List Cell → Bool
closed_at p cells = closed_of (get_elem? cells p)

pub closed_at-set :
    (cells : List Cell) (p q : ℕ) (c c' : Cell)
    → get_elem? cells q ≡ some c
    → closed_at p (set cells q c') ≡ (if q == p then c'.stop_closed else closed_at p cells)
closed_at-set [] p q c c' h = cc
closed_at-set (x ∷ cells) zero zero c c' h = refl
closed_at-set (x ∷ cells) (suc p) zero c c' h = ground arith
closed_at-set (x ∷ cells) zero (suc q) c c' h = ground arith
closed_at-set (x ∷ cells) (suc p) (suc q) c c' h = ground (arith, closed_at-set cells p q c c' h)

pub closed_at-append :
    (cells : List Cell) (c : Cell) (p : ℕ)
    → c.stop_closed ≡ false
    → closed_at p (cells ++ c ∷ []) ≡ closed_at p cells
closed_at-append [] c zero h = h
closed_at-append [] c (suc p) h = refl
closed_at-append (x ∷ cells) c zero h = refl
closed_at-append (x ∷ cells) c (suc p) h = closed_at-append cells c p h

pub closed_at-beyond : (cells : List Cell) (p : ℕ) → length cells ≤ p → closed_at p cells ≡ false
closed_at-beyond [] p h = refl
closed_at-beyond (x ∷ cells) zero h = absurd (omega arith)
closed_at-beyond (x ∷ cells) (suc p) h = closed_at-beyond cells p (omega arith)

-- An index that a list of smaller numbers does not hold.
pub count-beyond : (p : ℕ) (l : List ℕ) → All (λ q. q < p) l → count p l ≡ 0
count-beyond p [] h = refl
count-beyond p (q ∷ l) h = ground (arith, count-beyond p l h.1)
