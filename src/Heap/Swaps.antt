-- ===== src/Heap/Swaps.antt =====
-- container/heap: what a swap does to the entries and to their keys.
use mathlib.Core.List.{Perm}
use mathlib.Core.List.Perm
use jobx.Prelude.{
  ℕ, zero, suc, ◌<◌, ◌≡◌, ◌≢◌, refl, ◌∙◌, List, [], ◌∷◌, Option, none, some, arith, ◌==◌,
  if◌then◌else◌, length, get_elem?, set, length-set,
}
use jobx.Heap.{swap, swap_found, key_at}

module _ {A : Type 0} where
  pub get_elem?-lt : (l : List A) (i : ℕ) → i < length l → (x : A) × (get_elem? l i ≡ some x)
  get_elem?-lt [] i h = absurd (omega arith)
  get_elem?-lt (x ∷ l) zero h = (x, refl)
  get_elem?-lt (x ∷ l) (suc i) h = get_elem?-lt l i (omega arith)

  -- Writing at `i` trades the old entry for the new one.
  set-trade : (l : List A) (i : ℕ) (x v : A) → get_elem? l i ≡ some x → Perm (x ∷ set l i v) (v ∷ l)
  set-trade [] i x v e = cc
  set-trade (y ∷ l) zero x v e = let same : y ≡ x = ground arith in rw same (Perm.swap v x l)
  set-trade (y ∷ l) (suc i) x v e =
      Perm.trans (Perm.swap y x _)
        (Perm.trans (Perm.cons y (set-trade l i x v e)) (Perm.swap v y l))

  get_elem?-set :
      (l : List A) (i c : ℕ) (v : A)
      → i < length l
      → get_elem? (set l i v) c ≡ (if i == c then some v else get_elem? l c)
  get_elem?-set [] i c v h = absurd (omega arith)
  get_elem?-set (x ∷ l) zero zero v h = refl
  get_elem?-set (x ∷ l) zero (suc c) v h = ground arith
  get_elem?-set (x ∷ l) (suc i) zero v h = ground arith
  get_elem?-set (x ∷ l) (suc i) (suc c) v h = ground (arith, get_elem?-set l i c v)

  lt_of_get_elem? : (l : List A) (i : ℕ) (x : A) → get_elem? l i ≡ some x → i < length l
  lt_of_get_elem? [] i x e = cc
  lt_of_get_elem? (y ∷ l) zero x e = omega arith
  lt_of_get_elem? (y ∷ l) (suc i) x e = omega (arith, lt_of_get_elem? l i x e)

  pub length-swap : (l : List A) (i j : ℕ) → length (swap l i j) ≡ length l
  unfolding swap
  length-swap l i j = length-found (get_elem? l i) (get_elem? l j)
    where
      length-found : (o p : Option A) → length (swap_found l i j o p) ≡ length l
      length-found (some x) (some y) = length-set (set l i y) j x ∙ length-set l i y
      length-found none p = refl
      length-found (some x) none = refl

  found-perm :
      (l : List A) (i j : ℕ) (o p : Option A)
      → get_elem? l i ≡ o
      → get_elem? l j ≡ p
      → Perm (swap_found l i j o p) l
  unfolding swap_found
  found-perm l i j none p ei ej = Perm.refl l
  found-perm l i j (some x) none ei ej = Perm.refl l
  found-perm l i j (some x) (some y) ei ej =
      let there : get_elem? (set l i y) j ≡ some y =
        ground (arith, get_elem?-set l i j y (lt_of_get_elem? l i x ei)) in
      Perm.cons_inv (Perm.trans (set-trade (set l i y) j y x there) (set-trade l i x y ei))

  pub swap-perm : (l : List A) (i j : ℕ) → Perm (swap l i j) l
  unfolding swap
  swap-perm l i j = found-perm l i j _ _ refl refl

module _ {A : Type 0} (key : A → ℕ) where
  pub key_at_of_get : (l : List A) (i : ℕ) (x : A) → get_elem? l i ≡ some x → key_at key l i ≡ key x
  key_at_of_get [] i x e = cc
  key_at_of_get (y ∷ l) zero x e = ground arith
  key_at_of_get (y ∷ l) (suc i) x e = key_at_of_get l i x e

  key_at-set :
      (l : List A) (i c : ℕ) (v : A)
      → i < length l
      → key_at key (set l i v) c ≡ (if i == c then key v else key_at key l c)
  key_at-set [] i c v h = absurd (omega arith)
  key_at-set (x ∷ l) zero zero v h = refl
  key_at-set (x ∷ l) zero (suc c) v h = ground arith
  key_at-set (x ∷ l) (suc i) zero v h = ground arith
  key_at-set (x ∷ l) (suc i) (suc c) v h = ground (arith, key_at-set l i c v)

  -- After a swap the two places have each other's keys.
  pub key_at-swap :
      (l : List A) (i j : ℕ)
      → i < length l
      → j < length l
      → (c : ℕ)
      → key_at key (swap l i j) c
        ≡ (if j == c then key_at key l i else if i == c then key_at key l j else key_at key l c)
  unfolding swap
  key_at-swap l i j hi hj c =
      let (x, ei) = get_elem?-lt l i hi in
      let (y, ej) = get_elem?-lt l j hj in
      rw (ei, ej, key_at_of_get l i x ei, key_at_of_get l j y ej)
        (rw (key_at-set (set l i y) j c x (rw (length-set l i y) hj), key_at-set l i c y hi))

module _ {A : Type 0} where
  found_other :
      (l : List A) (i j c : ℕ) (o p : Option A)
      → get_elem? l i ≡ o
      → get_elem? l j ≡ p
      → i ≢ c
      → j ≢ c
      → get_elem? (swap_found l i j o p) c ≡ get_elem? l c
  unfolding swap_found
  found_other l i j c none p ei ej ni nj = refl
  found_other l i j c (some x) none ei ej ni nj = refl
  found_other l i j c (some x) (some y) ei ej ni nj =
      let hi = lt_of_get_elem? l i x ei in
      let hj = lt_of_get_elem? l j y ej in
      ground (
        arith,
        get_elem?-set l i c y hi,
        get_elem?-set (set l i y) j c x (rw (length-set l i y) hj),
      )

  -- A swap leaves the other places alone.
  pub get_elem?-swap_other :
      (l : List A) (i j c : ℕ) → i ≢ c → j ≢ c → get_elem? (swap l i j) c ≡ get_elem? l c
  unfolding swap
  get_elem?-swap_other l i j c = found_other l i j c _ _ refl refl

  pub get_elem?-swap :
      (l : List A) (i j : ℕ)
      → i < length l
      → j < length l
      → get_elem? (swap l i j) j ≡ get_elem? l i
  unfolding swap
  get_elem?-swap l i j hi hj =
      let (x, ei) = get_elem?-lt l i hi in
      let (y, ej) = get_elem?-lt l j hj in
      rw (ei, ej) (ground (arith, get_elem?-set (set l i y) j j x (rw (length-set l i y) hj)))
