-- ===== src/Heap/Order.antt =====
-- container/heap: `up` and `down` restore the heap order.
use mathlib.Core.List.{Perm}
use mathlib.Core.List.Perm
use jobx.Prelude.{
  ℕ, zero, suc, ◌+◌, ◌*◌, ◌≤◌, ◌<◌, ◌≡◌, ◌≢◌, Bool, true, false, not, ◌||◌, List, arith, leb, ◌==◌,
  length, Bool-cases, inl, inr, ◌⊎◌,
}
use jobx.Heap.{swap, parent, key_at, less, up_loop, up, least_child, down_loop, down}
use jobx.Heap.Swaps.{length-swap, swap-perm, key_at-swap}

module _ {A : Type 0} (key : A → ℕ) where
  -- Among the first `n` places no child is smaller than its parent.
  abbrev pub IsHeap : ℕ → List A → Type 0
  IsHeap n l = (c : ℕ) → 0 < c → c < n → key_at key l (parent c) ≤ key_at key l c

  -- All edges that do not touch `i` are in order, and those from its parent to its children.
  pub record Hole (n : ℕ) (l : List A) (i : ℕ) : Type 0 where
    pub edges :
        (c : ℕ) → 0 < c → c < n → c ≢ i → parent c ≢ i → key_at key l (parent c) ≤ key_at key l c
    pub bridge :
        (c : ℕ) → 0 < c → c < n → parent c ≡ i → 0 < i → key_at key l (parent i) ≤ key_at key l c

  -- The edge above `i`, and the edges below it.
  abbrev pub IsAbove : List A → ℕ → Type 0
  IsAbove l i = 0 < i → key_at key l (parent i) ≤ key_at key l i

  abbrev pub IsBelow : ℕ → List A → ℕ → Type 0
  IsBelow n l i = (c : ℕ) → 0 < c → c < n → parent c ≡ i → key_at key l i ≤ key_at key l c

  close-Hole : (n : ℕ) (l : List A) (i : ℕ) → Hole n l i → IsAbove l i → IsBelow n l i → IsHeap n l
  close-Hole n l i h a b c p q = ground (arith, h.edges c, a, b c)

  swap_up-Hole :
      (n : ℕ) (l : List A) (j : ℕ)
      → n ≤ length l
      → j < n
      → 0 < j
      → key_at key l j < key_at key l (parent j)
      → Hole n l j
      → IsBelow n l j
      → Hole n (swap l (parent j) j) (parent j) × IsBelow n (swap l (parent j) j) (parent j)
  swap_up-Hole n l j le jn pos lt h b =
      let at = key_at-swap key l (parent j) j (omega arith) (omega arith) in
      (
        record {
          edges = λ c p q r s. ground (arith, at c, at (parent c), h.edges c, b c, h.bridge c);
          bridge = λ c p q r s.
              ground (arith, at c, at (parent (parent j)), h.edges c, h.edges (parent j));
        },
        λ c p q r. ground (arith, at c, at (parent j), h.edges c),
      )

  up_loop-IsHeap :
      (fuel n : ℕ) (l : List A) (j : ℕ)
      → j < fuel
      → n ≤ length l
      → j < n
      → Hole n l j
      → IsBelow n l j
      → IsHeap n (up_loop key fuel l j)
  unfolding up_loop
  up_loop-IsHeap zero n l j f le jn h b = absurd (omega arith)
  up_loop-IsHeap (suc fuel) n l j f le jn h b =
      elim (Bool-cases (parent j == j || not (less key l j (parent j)))) [
        | inl stop ↦ rw (stop, up_loop) (close-Hole n l j h (ground arith) b)
        | inr go ↦
            let (h', b') = swap_up-Hole n l j le jn (ground arith) (ground arith) h b in
            rw (go, up_loop)
              (up_loop-IsHeap fuel n (swap l (parent j) j) (parent j) (ground arith)
                (rw (length-swap l (parent j) j) le) (ground arith) h' b')
      ]

  up_loop-perm : (fuel : ℕ) (l : List A) (j : ℕ) → Perm (up_loop key fuel l j) l
  unfolding up_loop
  up_loop-perm zero l j = Perm.refl l
  up_loop-perm (suc fuel) l j = elim (Bool-cases (parent j == j || not (less key l j (parent j)))) [
    | inl stop ↦ rw (stop, up_loop) (Perm.refl l)
    | inr go ↦
        rw (go, up_loop)
          (Perm.trans (up_loop-perm fuel (swap l (parent j) j) (parent j))
            (swap-perm l (parent j) j))
  ]

  pub up-IsHeap :
      (n : ℕ) (l : List A) (j : ℕ)
      → n ≤ length l
      → j < n
      → Hole n l j
      → IsBelow n l j
      → IsHeap n (up key l j)
  unfolding up
  up-IsHeap n l j = up_loop-IsHeap (j + 1) n l j (omega arith)

  pub up-perm : (l : List A) (j : ℕ) → Perm (up key l j) l
  unfolding up
  up-perm l j = up_loop-perm (j + 1) l j

  -- `m` is a child of `i` with the smallest key.
  record IsLeastChild (n : ℕ) (l : List A) (i m : ℕ) : Type 0 where
    inside : m < n
    child : parent m ≡ i
    below : i < m
    least : (c : ℕ) → 0 < c → c < n → parent c ≡ i → key_at key l m ≤ key_at key l c

  least_child-IsLeastChild :
      (n : ℕ) (l : List A) (i : ℕ) → 2 * i + 1 < n → IsLeastChild n l i (least_child key l i n)
  least_child-IsLeastChild n l i h = record {
    inside = ground arith;
    child = ground arith;
    below = ground arith;
    least = λ c p q r. two_children c (ground arith);
  }
    where
      two_children :
          (c : ℕ)
          → (c ≡ 2 * i + 1) ⊎ ((c ≡ 2 * i + 2) × (c < n))
          → key_at key l (least_child key l i n) ≤ key_at key l c
      two_children c (inl e) = rw e (ground arith)
      two_children c (inr e) = rw e.0 (ground arith)

  swap_down-Hole :
      (n : ℕ) (l : List A) (i m : ℕ)
      → n ≤ length l
      → IsLeastChild n l i m
      → key_at key l m < key_at key l i
      → Hole n l i
      → Hole n (swap l i m) m × IsAbove (swap l i m) m
  swap_down-Hole n l i m le s lt h =
      let at = key_at-swap key l i m (omega (arith, s.below, s.inside)) (omega (arith, s.inside)) in
      (
        record {
          edges = λ c p q r t. ground (
            arith,
            at c,
            at (parent c),
            h.edges c,
            h.bridge m,
            s.least c,
            s.child,
            s.inside,
            s.below,
          );
          bridge = λ c p q r t.
              ground (arith, at c, at (parent m), h.edges c, s.child, s.below, s.inside);
        },
        λ p. ground (arith, at m, at (parent m), s.child, s.below),
      )

  -- The test that ends the loop of `down`.
  abbrev settled : List A → ℕ → ℕ → Bool
  settled l i n = leb n (2 * i + 1) || not (less key l (least_child key l i n) i)

  settled-IsBelow : (n : ℕ) (l : List A) (i : ℕ) → settled l i n ≡ true → IsBelow n l i
  settled-IsBelow n l i e c p q r = elim (Bool-cases (leb n (2 * i + 1))) [
    | inl none_inside ↦ ground arith
    | inr inside ↦
        let s = least_child-IsLeastChild n l i (ground arith) in ground (arith, s.least c)
  ]

  down_loop-IsHeap :
      (fuel n : ℕ) (l : List A) (i : ℕ)
      → n ≤ i + fuel
      → n ≤ length l
      → Hole n l i
      → IsAbove l i
      → IsHeap n (down_loop key fuel l i n).0 × (i ≤ (down_loop key fuel l i n).1)
  unfolding down_loop
  down_loop-IsHeap zero n l i f le h a =
      (close-Hole n l i h a (λ c p q r. absurd (omega arith)), omega arith)
  down_loop-IsHeap (suc fuel) n l i f le h a = elim (Bool-cases (settled l i n)) [
    | inl stop ↦
        rw (stop, down_loop) (close-Hole n l i h a (settled-IsBelow n l i stop), omega arith)
    | inr go ↦
        let m = least_child key l i n in
        let s = least_child-IsLeastChild n l i (ground arith) in
        let (h', a') = swap_down-Hole n l i m le s (ground arith) h in
        let (heap, grown) =
          down_loop-IsHeap fuel n (swap l i m) m (omega (arith, s.below))
            (rw (length-swap l i m) le) h' a' in
        rw (go, down_loop) (heap, omega (arith, s.below))
  ]

  down_loop-perm : (fuel n : ℕ) (l : List A) (i : ℕ) → Perm (down_loop key fuel l i n).0 l
  unfolding down_loop
  down_loop-perm zero n l i = Perm.refl l
  down_loop-perm (suc fuel) n l i = elim (Bool-cases (settled l i n)) [
    | inl stop ↦ rw (stop, down_loop) (Perm.refl l)
    | inr go ↦
        let m = least_child key l i n in
        rw (go, down_loop) (Perm.trans (down_loop-perm fuel n (swap l i m) m) (swap-perm l i m))
  ]

  pub down-IsHeap :
      (n : ℕ) (l : List A) (i : ℕ)
      → n ≤ length l
      → Hole n l i
      → IsAbove l i
      → IsHeap n (down key l i n).0
  unfolding down
  down-IsHeap n l i le h a = (down_loop-IsHeap n n l i (omega arith) le h a).0

  pub down-perm : (n : ℕ) (l : List A) (i : ℕ) → Perm (down key l i n).0 l
  unfolding down
  down-perm n l i = down_loop-perm n n l i

  -- From a hole whose edge above is out of order too: either `down` moves, and the heap is whole,
  -- or it leaves the slice as it is, and only the edge above is left.
  pub down_cases :
      (n : ℕ) (l : List A) (i : ℕ)
      → i < n
      → n ≤ length l
      → Hole n l i
      → (((down key l i n).1 ≡ true) × IsHeap n (down key l i n).0)
        ⊎ ((down key l i n ≡ (l, false)) × IsBelow n l i)
  unfolding down down_loop
  down_cases zero l i lt le h = absurd (omega arith)
  down_cases (suc n) l i lt le h = elim (Bool-cases (settled l i (suc n))) [
    | inl stop ↦ inr (rw (stop, down_loop) (ground arith), settled-IsBelow (suc n) l i stop)
    | inr go ↦
        let m = least_child key l i (suc n) in
        let s = least_child-IsLeastChild (suc n) l i (ground arith) in
        let (h', a') = swap_down-Hole (suc n) l i m le s (ground arith) h in
        let (heap, grown) =
          down_loop-IsHeap n (suc n) (swap l i m) m (omega (arith, s.below))
            (rw (length-swap l i m) le) h' a' in
        inl (rw (go, down_loop) (ground (arith, s.below), heap))
  ]
