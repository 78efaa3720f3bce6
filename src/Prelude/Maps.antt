-- ===== src/Prelude/Maps.antt =====
-- Go maps and sync.Map as association lists: a write replaces the entry of its key where it
-- stands, or adds an entry at the end. Sets are lists, with no element twice where `add` builds
-- them.
use Prim.Native.Nat.{◌≤◌}
use mathlib.Core.Path.{◌≡◌, refl}
use mathlib.Core.Logic.{ite}
use mathlib.Core.Bool.{Bool, true, false, ◌||◌}
use mathlib.Core.List.{List, [], ◌∷◌, ◌++◌}
use mathlib.Core.Option.{Option, none, some}
use native.Mathlib.Omega.{arith}
use jobx.Prelude.Tests.{if◌then◌else◌}
use jobx.Prelude.Lists.{length}

module _ {K V : Type 0} (dec : Discrete K) where
  unfoldable pub lookup : K → List (K × V) → Option V
  lookup k [] = none
  lookup k ((j, v) ∷ m) = ite (dec j k) (some v) (lookup k m)

  unfoldable pub insert : K → V → List (K × V) → List (K × V)
  insert k v [] = (k, v) ∷ []
  insert k v ((j, w) ∷ m) = ite (dec j k) ((j, v) ∷ m) ((j, w) ∷ insert k v m)

  -- Removes each entry of the key.
  unfoldable pub delete : K → List (K × V) → List (K × V)
  delete k [] = []
  delete k ((j, w) ∷ m) = ite (dec j k) (delete k m) ((j, w) ∷ delete k m)

  pub lookup-insert :
      (j k : K) (v : V) (m : List (K × V))
      → lookup j (insert k v m) ≡ ite (dec k j) (some v) (lookup j m)
  unfolding lookup insert
  lookup-insert j k v [] = refl
  lookup-insert j k v ((i, w) ∷ m) = ground (arith, lookup-insert j k v m)

  pub lookup-delete :
      (j k : K) (m : List (K × V)) → lookup j (delete k m) ≡ ite (dec k j) none (lookup j m)
  unfolding lookup delete
  lookup-delete j k [] = ground arith
  lookup-delete j k ((i, w) ∷ m) = ground (arith, lookup-delete j k m)

module _ {K : Type 0} (dec : Discrete K) where
  -- A set as a list: membership, `set[k] = struct{}{}` and `delete(set, k)`.
  unfoldable pub contains : K → List K → Bool
  contains k [] = false
  contains k (j ∷ s) = ite (dec j k) true (contains k s)

  unfoldable pub add : K → List K → List K
  unfolding contains
  add k s = if contains k s then s else s ++ k ∷ []

  unfoldable pub discard : K → List K → List K
  discard k [] = []
  discard k (j ∷ s) = ite (dec j k) (discard k s) (j ∷ discard k s)

  pub contains-append :
      (j : K) (s t : List K) → contains j (s ++ t) ≡ (contains j s || contains j t)
  unfolding contains
  contains-append j [] t = refl
  contains-append j (i ∷ s) t = ground (arith, contains-append j s t)

  contains_of_eq : (j k : K) (s : List K) → k ≡ j → contains k s ≡ contains j s
  contains_of_eq j k s e = rw e

  pub contains-add :
      (j k : K) (s : List K) → contains j (add k s) ≡ ite (dec k j) true (contains j s)
  unfolding add contains
  contains-add j k s = ground (arith, contains-append j s (k ∷ []), contains_of_eq j k s)

  pub contains-discard :
      (j k : K) (s : List K) → contains j (discard k s) ≡ ite (dec k j) false (contains j s)
  unfolding contains discard
  contains-discard j k [] = ground arith
  contains-discard j k (i ∷ s) = ground (arith, contains-discard j k s)

  pub length-discard-le : (k : K) (s : List K) → length (discard k s) ≤ length s
  unfolding discard
  length-discard-le k [] = omega arith
  length-discard-le k (i ∷ s) = ground (arith, length-discard-le k s)
