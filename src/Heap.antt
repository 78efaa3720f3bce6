-- ===== src/Heap.antt =====
-- Go's container/heap as internal/core/dispatcher.go uses it: the functions `Push`, `Pop` and
-- `Remove` over the methods of `delayHeap`, for entries of any type that are compared by a number.
-- The heap is the slice; an index out of range, which the code never uses, changes nothing.
pub mod Swaps
pub mod Order
pub mod Laws
pub mod Bags
use jobx.Prelude.{
  ℕ, zero, suc, ◌+◌, ◌-◌, ◌*◌, ◌/◌, Bool, true, false, not, ◌||◌, ◌&&◌, List, [], ◌∷◌, ◌++◌, Option,
  none, some, arith, ltb, leb, ◌==◌, if◌then◌else◌, length, get_elem?, set, take,
}

-- `Swap`.
swap_found {ℓ} : {A : Type ℓ} → List A → ℕ → ℕ → Option A → Option A → List A
swap_found l i j (some x) (some y) = set (set l i y) j x
swap_found l i j _ _ = l

unfoldable pub swap {ℓ} : {A : Type ℓ} → List A → ℕ → ℕ → List A
unfolding swap_found
swap l i j = swap_found l i j (get_elem? l i) (get_elem? l j)

abbrev pub parent : ℕ → ℕ
parent j = (j - 1) / 2

-- The method `Pop` of the heap: the last entry, and the slice without it.
abbrev pub cut {ℓ} : {A : Type ℓ} → List A → Option A × List A
cut l = (get_elem? l (length l - 1), take (length l - 1) l)

module _ {A : Type 0} (key : A → ℕ) where
  abbrev pub key_at : List A → ℕ → ℕ
  key_at [] i = 0
  key_at (x ∷ l) zero = key x
  key_at (x ∷ l) (suc i) = key_at l i

  -- `Less`.
  abbrev pub less : List A → ℕ → ℕ → Bool
  less l i j = ltb (key_at l i) (key_at l j)

  -- The loop of `up`; `j` falls, so that `j + 1` rounds are enough.
  unfoldable pub up_loop : ℕ → List A → ℕ → List A
  up_loop zero l j = l
  up_loop (suc fuel) l j = elim (parent j == j || not (less l j (parent j))) [
    | true ↦ l
    | false ↦ up_loop fuel (swap l (parent j) j) (parent j)
  ]

  unfoldable pub up : List A → ℕ → List A
  unfolding up_loop
  up l j = up_loop (j + 1) l j

  -- The child of `i` that `down` compares with it.
  abbrev pub least_child : List A → ℕ → ℕ → ℕ
  least_child l i n =
      if ltb (2 * i + 2) n && less l (2 * i + 2) (2 * i + 1) then 2 * i + 2 else 2 * i + 1

  -- The loop of `down`: the slice and the last `i`. It grows, so that `n` rounds are enough.
  unfoldable pub down_loop : ℕ → List A → ℕ → ℕ → List A × ℕ
  down_loop zero l i n = (l, i)
  down_loop (suc fuel) l i n = elim (leb n (2 * i + 1) || not (less l (least_child l i n) i)) [
    | true ↦ (l, i)
    | false ↦ down_loop fuel (swap l i (least_child l i n)) (least_child l i n) n
  ]

  unfoldable pub down : List A → ℕ → ℕ → List A × Bool
  unfolding down_loop
  down l i n = let (l', i') = down_loop n l i n in (l', ltb i i')

  -- `Push`: append, then `up`.
  unfoldable pub push : List A → A → List A
  unfolding up
  push l x = up (l ++ x ∷ []) (length l)

  -- `Pop`.
  unfoldable pub pop : List A → Option A × List A
  unfolding down
  pop l = cut (down (swap l 0 (length l - 1)) 0 (length l - 1)).0

  -- `Remove`.
  abbrev pub sink_or_rise : List A × Bool → ℕ → List A
  sink_or_rise (l, true) i = l
  sink_or_rise (l, false) i = up l i

  unfoldable pub remove : List A → ℕ → Option A × List A
  unfolding down up
  remove l i =
      let n = length l - 1 in if n == i then cut l else cut (sink_or_rise (down (swap l i n) i n) i)
