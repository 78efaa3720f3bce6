-- ===== src/Heap/Bags.antt =====
-- container/heap as a priority queue: a bag of entries, of which the order of the slice is forgotten.
use Prim.Native.Nat.{min}
use mathlib.Core.List.{Perm, Permᴰ}
use mathlib.Core.List.Perm
use mathlib.Core.Logic.{∥∥₁_elim}
use mathlib.Core.Quot
use mathlib.Core.Quot.{Quot, Quot-set}
use native.Mathlib.Nat.{ℕ_set}
use jobx.Prelude.{
  ℕ, ◌≤◌, ◌≡◌, refl, sym, ap, ◌∙◌, List, [], ◌∷◌, Option, none, some, arith, length, All, ltb,
  if◌then◌else◌, inl, inr, Bool-cases,
}
use jobx.Heap.{push, pop, remove}
use jobx.Heap.Laws.{IsOrdered, push_correct, Pops, pop-Pops, Removes, remove-Removes}

-- The entries of a slice, without their order.
abbrev pub Bag : Type 0 → Type 0
Bag A = Quot (Perm {A = A})

module _ {A : Type 0} where
  pub put : A → Bag A → Bag A
  put x = Quot.lift Quot-set (λ l. Quot.mk (x ∷ l)) (λ k l p. Quot.sound (Perm.cons x p))

module _ {A : Type 0} (key : A → ℕ) where
  option_set : IsSet (Option ℕ)
  option_set = hlevel ℕ_set

  abbrev pub lesser : ℕ → Option ℕ → Option ℕ
  lesser n none = some n
  lesser n (some m) = some (min n m)

  abbrev pub least_of : List A → Option ℕ
  least_of [] = none
  least_of (x ∷ l) = lesser (key x) (least_of l)

  lesser_swap : (m n : ℕ) (o : Option ℕ) → lesser m (lesser n o) ≡ lesser n (lesser m o)
  lesser_swap m n none = ap some (omega arith)
  lesser_swap m n (some k) = ap some (omega arith)

  least_of-permᴰ : {k l : List A} → Permᴰ k l → least_of k ≡ least_of l
  least_of-permᴰ Permᴰ.nil = refl
  least_of-permᴰ (Permᴰ.cons e p) = rw (e, least_of-permᴰ p) refl
  least_of-permᴰ (Permᴰ.swap {l = l} d e) = rw (d, e) (lesser_swap _ _ (least_of l))
  least_of-permᴰ (Permᴰ.trans p q) = least_of-permᴰ p ∙ least_of-permᴰ q

  -- The least key of a bag.
  pub least_key : Bag A → Option ℕ
  least_key = Quot.lift option_set least_of (λ k l p. ∥∥₁_elim p (option_set _ _) least_of-permᴰ)

  -- What the code asks of the heap: to add an entry, to take the first one if there is one, and to take
  -- one out by its index.
  pub data HeapOp : Type 0 where
    inserts : A → HeapOp
    takes : HeapOp
    removes : ℕ → HeapOp

  abbrev pub apply : HeapOp → List A → Option A × List A
  apply (inserts x) l = (none, push key l x)
  apply takes [] = (none, [])
  apply takes (x ∷ l) = pop key (x ∷ l)
  apply (removes i) l = if ltb i (length l) then remove key l i else (none, l)

  -- What the operations promise of the bag: the entry that they answer with leaves it, and taking
  -- answers with one of the least key unless the bag is empty.
  abbrev pub Promise : HeapOp → Bag A → Option A → Bag A → Type 0
  Promise (inserts x) b o b' = (o ≡ none) × (b' ≡ put x b)
  Promise takes b none b' = (b ≡ Quot.mk []) × (b' ≡ b)
  Promise takes b (some y) b' = (b ≡ put y b') × (least_key b ≡ some (key y))
  Promise (removes i) b none b' = b' ≡ b
  Promise (removes i) b (some y) b' = b ≡ put y b'

  -- A run of operations, with their answers.
  abbrev pub run : List HeapOp → List A → List (Option A) × List A
  run [] l = ([], l)
  run (op ∷ ops) l = let (o, l') = apply op l in let (os, l'') = run ops l' in (o ∷ os, l'')

  abbrev pub Promises : List HeapOp → Bag A → List (Option A) → Bag A → Type 0
  Promises [] b [] b' = b' ≡ b
  Promises [] b (o ∷ os) b' = ⊥
  Promises (op ∷ ops) b [] b' = ⊥
  Promises (op ∷ ops) b (o ∷ os) b' = (c : Bag A) × Promise op b o c × Promises ops c os b'

  least_of-All : (n : ℕ) (l : List A) → All (λ y. n ≤ key y) l → lesser n (least_of l) ≡ some n
  least_of-All n [] h = refl
  least_of-All n (x ∷ l) (a, h) =
      lesser_swap n (key x) (least_of l)
      ∙ (ap (lesser (key x)) (least_of-All n l h) ∙ ap some (omega arith))

  lesser_again : (n : ℕ) (o : Option ℕ) → lesser n (lesser n o) ≡ lesser n o
  lesser_again n none = ap some (omega arith)
  lesser_again n (some m) = ap some (omega arith)

  pub least_of-perm : {k l : List A} → Perm k l → least_of k ≡ least_of l
  least_of-perm p = ∥∥₁_elim p (option_set _ _) least_of-permᴰ

  -- The entry that `Pop` gives has the least key.
  pub Pops-least :
      (l : List A) (r : Option A × List A) (k : Pops key l r) → least_of l ≡ some (key k.entry)
  Pops-least l r k =
      let same = least_of-perm k.same in
      sym same
      ∙ (sym (lesser_again (key k.entry) (least_of r.1))
          ∙ (ap (lesser (key k.entry)) same ∙ least_of-All (key k.entry) l k.least))

  Pops-Promise :
      (l : List A) (r : Option A × List A)
      → Pops key l r
      → IsOrdered key r.1 × Promise takes (Quot.mk l) r.0 (Quot.mk r.1)
  unfolding put least_key
  Pops-Promise l (o, rest) k =
      rw k.first (k.ordered, (sym (Quot.sound k.same), Pops-least l (o, rest) k))

  Removes-Promise :
      (l : List A) (i : ℕ) (r : Option A × List A)
      → Removes key l i r
      → IsOrdered key r.1 × Promise (removes i) (Quot.mk l) r.0 (Quot.mk r.1)
  unfolding put
  Removes-Promise l i (o, rest) k = rw k.gone (k.ordered, sym (Quot.sound k.same))

  apply-Promise :
      (op : HeapOp) (l : List A)
      → IsOrdered key l
      → IsOrdered key (apply op l).1
        × Promise op (Quot.mk l) (apply op l).0 (Quot.mk (apply op l).1)
  unfolding put
  apply-Promise (inserts x) l h =
      let (ordered, same) = push_correct key l x h in (ordered, (refl, Quot.sound same))
  apply-Promise takes [] h = (h, (refl, refl))
  apply-Promise takes (x ∷ l) h =
      Pops-Promise (x ∷ l) (pop key (x ∷ l)) (pop-Pops key (x ∷ l) (omega arith) h)
  apply-Promise (removes i) l h = elim (Bool-cases (ltb i (length l))) [
    | inl inside ↦
        rw inside (Removes-Promise l i (remove key l i) (remove-Removes key l i (ground arith) h))
    | inr outside ↦ rw outside (h, refl)
  ]

  -- From a slice in heap order, `Push`, `Pop` and `Remove` of container/heap implement a priority queue:
  -- whatever is asked of them, in whatever order, they answer as a bag of the entries does, in which
  -- the order of the slice is forgotten.
  pub run-Promises :
      (ops : List HeapOp) (l : List A)
      → IsOrdered key l
      → Promises ops (Quot.mk l) (run ops l).0 (Quot.mk (run ops l).1)
  run-Promises [] l h = refl
  run-Promises (op ∷ ops) l h =
      let (ordered, kept) = apply-Promise op l h in
      (Quot.mk (apply op l).1, kept, run-Promises ops (apply op l).1 ordered)
