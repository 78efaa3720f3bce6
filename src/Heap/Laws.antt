-- ===== src/Heap/Laws.antt =====
-- container/heap: `Push`, `Pop` and `Remove` keep the heap order and the entries, and `Pop` gives
-- the entry with the least key.
use mathlib.Core.List.{Perm, perm_append_singleton}
use mathlib.Core.List.Perm
use jobx.Prelude.{
  ℕ, zero, suc, ◌+◌, ◌-◌, ◌*◌, ◌≤◌, ◌<◌, ◌≡◌, ◌≢◌, refl, Bool, true, false, not, ◌||◌, List, [],
  ◌∷◌, ◌++◌, Option, some, arith, leb, ◌==◌, length, Bool-cases, inl, inr, get_elem?, take, All,
  length-append, length-perm, ◌∙◌,
}
use jobx.Heap.{
  swap, parent, key_at, less, up_loop, up, least_child, down_loop, down, push, pop, remove, cut,
  sink_or_rise,
}
use jobx.Heap.Swaps.{
  length-swap, swap-perm, key_at-swap, get_elem?-swap_other, get_elem?-swap, get_elem?-lt,
  key_at_of_get,
}
use jobx.Heap.Order.{IsHeap, Hole, up-IsHeap, up-perm, down-IsHeap, down-perm, down_cases}

module _ {A : Type 0} where
  length-take : (n : ℕ) (l : List A) → n ≤ length l → length (take n l) ≡ n
  length-take zero l h = refl
  length-take (suc n) [] h = absurd (omega arith)
  length-take (suc n) (x ∷ l) h = omega (arith, length-take n l)

  take-perm :
      (n : ℕ) (l : List A) (x : A)
      → length l ≡ suc n
      → get_elem? l n ≡ some x
      → Perm (x ∷ take n l) l
  take-perm n [] x h e = cc
  take-perm zero (y ∷ []) x h e = let same : y ≡ x = ground arith in rw same (Perm.refl (x ∷ []))
  take-perm zero (y ∷ z ∷ l) x h e = absurd (omega arith)
  take-perm (suc n) (y ∷ l) x h e =
      Perm.trans (Perm.swap y x _) (Perm.cons y (take-perm n l x (omega arith) e))

module _ {A : Type 0} (key : A → ℕ) where
  key_at-take : (n : ℕ) (l : List A) (c : ℕ) → c < n → key_at key (take n l) c ≡ key_at key l c
  key_at-take zero l c h = absurd (omega arith)
  key_at-take (suc n) [] c h = refl
  key_at-take (suc n) (x ∷ l) zero h = refl
  key_at-take (suc n) (x ∷ l) (suc c) h = key_at-take n l c (omega arith)

  key_at-append : (l m : List A) (c : ℕ) → c < length l → key_at key (l ++ m) c ≡ key_at key l c
  key_at-append [] m c h = absurd (omega arith)
  key_at-append (x ∷ l) m zero h = refl
  key_at-append (x ∷ l) m (suc c) h = key_at-append l m c (omega arith)

  -- The whole slice is a heap.
  abbrev pub IsOrdered : List A → Type 0
  IsOrdered l = IsHeap key (length l) l

  -- `Push` adds the entry and keeps the order.
  pub push_correct :
      (l : List A) (x : A) → IsOrdered l → IsOrdered (push key l x) × Perm (push key l x) (x ∷ l)
  unfolding push
  push_correct l x h =
      let l' = l ++ x ∷ [] in
      let same = up-perm key l' (length l) in
      let size : length l' ≡ length l + 1 = length-append l (x ∷ []) in
      let heap =
        up-IsHeap key (length l') l' (length l) (omega arith) (omega (arith, size))
          (record {
            edges = λ c p q r s.
                ground (
                  arith,
                  size,
                  h c,
                  key_at-append l (x ∷ []) c,
                  key_at-append l (x ∷ []) (parent c),
                );
            bridge = λ c p q r s. absurd (omega (arith, size));
          })
          (λ c p q r. absurd (omega (arith, size))) in
      (rw (length-perm same) heap, Perm.trans same (perm_append_singleton x l))

  root_least :
      (fuel n : ℕ) (l : List A) (c : ℕ)
      → c < fuel
      → c < n
      → IsHeap key n l
      → key_at key l 0 ≤ key_at key l c
  root_least zero n l c f lt h = absurd (omega arith)
  root_least (suc fuel) n l zero f lt h = omega arith
  root_least (suc fuel) n l (suc c) f lt h =
      omega (arith, h (suc c), root_least fuel n l (parent (suc c)) (omega arith) (omega arith) h)

  All-of_key_at :
      (k : ℕ) (l : List A) → ((c : ℕ) → c < length l → k ≤ key_at key l c) → All (λ y. k ≤ key y) l
  All-of_key_at k [] h = tt
  All-of_key_at k (x ∷ l) h =
      (h 0 (omega arith), All-of_key_at k l (λ c p. h (suc c) (omega arith)))

  -- The first entry of a slice in heap order has the least key.
  pub first-least : (l : List A) → IsOrdered l → All (λ y. key_at key l 0 ≤ key y) l
  first-least l h =
      All-of_key_at (key_at key l 0) l (λ c p. root_least (suc c) (length l) l c (omega arith) p h)

  down_loop_untouched :
      (fuel n : ℕ) (l : List A) (i c : ℕ)
      → n ≤ c
      → get_elem? (down_loop key fuel l i n).0 c ≡ get_elem? l c
  unfolding down_loop
  down_loop_untouched zero n l i c h = refl
  down_loop_untouched (suc fuel) n l i c h =
      elim (Bool-cases (leb n (2 * i + 1) || not (less key l (least_child key l i n) i))) [
        | inl stop ↦ rw (stop, down_loop) refl
        | inr go ↦
            let m = least_child key l i n in
            let far : m ≢ c = ground arith in
            rw (go, down_loop)
              (down_loop_untouched fuel n (swap l i m) m c h
                ∙ get_elem?-swap_other l i m c (ground arith) far)
      ]

  down_untouched :
      (n : ℕ) (l : List A) (i c : ℕ) → n ≤ c → get_elem? (down key l i n).0 c ≡ get_elem? l c
  unfolding down
  down_untouched n l i c h = down_loop_untouched n n l i c h

  up_loop_untouched :
      (fuel : ℕ) (l : List A) (j c : ℕ) → j < c → get_elem? (up_loop key fuel l j) c ≡ get_elem? l c
  unfolding up_loop
  up_loop_untouched zero l j c h = refl
  up_loop_untouched (suc fuel) l j c h =
      elim (Bool-cases (parent j == j || not (less key l j (parent j)))) [
        | inl stop ↦ rw (stop, up_loop) refl
        | inr go ↦
            rw (go, up_loop)
              (up_loop_untouched fuel (swap l (parent j) j) (parent j) c (omega arith)
                ∙ get_elem?-swap_other l (parent j) j c (omega arith) (omega arith))
      ]

  -- A non-empty slice gives an entry with the least key, and the others in order.
  pub record Pops (l : List A) (r : Option A × List A) : Type 0 where
    pub entry : A
    pub first : r.0 ≡ some entry
    pub same : Perm (entry ∷ r.1) l
    pub ordered : IsOrdered r.1
    pub least : All (λ y. key entry ≤ key y) l

  cut-IsOrdered : (n : ℕ) (l : List A) → length l ≡ suc n → IsHeap key n l → IsOrdered (take n l)
  cut-IsOrdered n l size h c p q =
      let len = length-take n l (omega arith) in
      rw (key_at-take n l c (omega (arith, len)), key_at-take n l (parent c) (omega (arith, len)))
        (h c p (omega (arith, len)))

  -- What is left to prove of a slice of `n + 1` entries whose last one is taken off.
  cut-Pops :
      (n : ℕ) (l l' : List A) (x : A)
      → length l ≡ suc n
      → get_elem? l 0 ≡ some x
      → IsOrdered l
      → get_elem? l' n ≡ some x
      → Perm l' l
      → IsHeap key n l'
      → Pops l (cut l')
  cut-Pops n l l' x size first h last same heap =
      let size' : length l' ≡ suc n = length-perm same ∙ size in
      let e : length l' - 1 ≡ n = omega (arith, size') in
      rw e (record {
        entry = x;
        first = last;
        same = Perm.trans (take-perm n l' x size' last) same;
        ordered = cut-IsOrdered n l' size' heap;
        least = All-of_key_at (key x) l λ c p.
            rw (← key_at_of_get key l 0 x first)
              (root_least (suc c) (length l) l c (omega arith) p h);
      })

  -- `Pop` on a slice in heap order that is not empty gives an entry with the least key, and leaves
  -- the others in heap order.
  pub pop-Pops : (l : List A) → 0 < length l → IsOrdered l → Pops l (pop key l)
  unfolding pop
  pop-Pops l pos h =
      let n = length l - 1 in
      let size : length l ≡ suc n = omega arith in
      let (x, first) = get_elem?-lt l 0 pos in
      let l₁ = swap l 0 n in
      let at = key_at-swap key l 0 n pos (omega arith) in
      let heap =
        down-IsHeap key n l₁ 0 (omega (arith, length-swap l 0 n))
          (record {
            edges = λ c p q r s. ground (arith, at c, at (parent c), h c);
            bridge = λ c p q r s. absurd (omega arith);
          })
          (λ p. absurd (omega arith)) in
      cut-Pops n l (down key l₁ 0 n).0 x size first h
        (down_untouched n l₁ 0 n (omega arith) ∙ get_elem?-swap l 0 n pos (omega arith) ∙ first)
        (Perm.trans (down-perm key n l₁ 0) (swap-perm l 0 n)) heap

  -- The entry at `i` leaves, and the others are in order.
  pub record Removes (l : List A) (i : ℕ) (r : Option A × List A) : Type 0 where
    pub entry : A
    pub there : get_elem? l i ≡ some entry
    pub gone : r.0 ≡ some entry
    pub same : Perm (entry ∷ r.1) l
    pub ordered : IsOrdered r.1

  cut-Removes :
      (n : ℕ) (l l' : List A) (i : ℕ) (x : A)
      → length l ≡ suc n
      → get_elem? l i ≡ some x
      → get_elem? l' n ≡ some x
      → Perm l' l
      → IsHeap key n l'
      → Removes l i (cut l')
  cut-Removes n l l' i x size there last same heap =
      let size' : length l' ≡ suc n = length-perm same ∙ size in
      let e : length l' - 1 ≡ n = omega (arith, size') in
      rw e (record {
        entry = x;
        there = there;
        gone = last;
        same = Perm.trans (take-perm n l' x size' last) same;
        ordered = cut-IsOrdered n l' size' heap;
      })

  sink_or_rise-sunk : (d : List A × Bool) (i : ℕ) → d.1 ≡ true → sink_or_rise key d i ≡ d.0
  sink_or_rise-sunk (l, true) i e = refl
  sink_or_rise-sunk (l, false) i e = cc

  up_untouched : (l : List A) (j c : ℕ) → j < c → get_elem? (up key l j) c ≡ get_elem? l c
  unfolding up
  up_untouched l j c h = up_loop_untouched (j + 1) l j c h

  -- `Remove` at an index of a slice in heap order takes out the entry that stands there, and
  -- leaves the others in heap order.
  pub remove-Removes :
      (l : List A) (i : ℕ) → i < length l → IsOrdered l → Removes l i (remove key l i)
  unfolding remove
  remove-Removes l i lt h =
      let n = length l - 1 in
      let size : length l ≡ suc n = omega arith in
      let (x, there) = get_elem?-lt l i lt in
      elim (Bool-cases (n == i)) [
        | inl last ↦
            let e : n ≡ i = ground arith in
            rw last (
              cut-Removes n l l i x size there (rw e there) (Perm.refl l)
                (λ c p q. h c p (omega arith)))
        | inr inside ↦
            let l₁ = swap l i n in
            let lt' : i < n = ground arith in
            let len = length-swap l i n in
            let at = key_at-swap key l i n lt (omega arith) in
            let moved = get_elem?-swap l i n lt (omega arith) ∙ there in
            let hole : Hole key n l₁ i = record {
              edges = λ c p q r s. ground (arith, at c, at (parent c), h c);
              bridge = λ c p q r s. ground (arith, at c, at (parent i), h c, h i);
            } in
            rw inside (elim (down_cases key n l₁ i lt' (omega (arith, len)) hole) [
              | inl (sunk, heap) ↦ rw (sink_or_rise-sunk (down key l₁ i n) i sunk) (
                  cut-Removes n l _ i x size there (down_untouched n l₁ i n (omega arith) ∙ moved)
                    (Perm.trans (down-perm key n l₁ i) (swap-perm l i n)) heap)
              | inr (still, below) ↦ rw still (
                  cut-Removes n l (up key l₁ i) i x size there (up_untouched l₁ i n lt' ∙ moved)
                    (Perm.trans (up-perm key l₁ i) (swap-perm l i n))
                    (up-IsHeap key n l₁ i (omega (arith, len)) lt' hole below))
            ])
      ]
