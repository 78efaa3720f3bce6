-- ===== src/InFlight/Claims.antt =====
-- internal/core/dispatcher.go: the laws of the in-flight sets.
use jobx.Prelude.{
  ◌≤◌, ◌≡◌, ◌≢◌, refl, Bool, true, false, List, [], ◌∷◌, Option, none, some, arith, ◌↔◌, ite,
  length,
}
use jobx.Prelude.Maps.{lookup, delete, add, discard, contains, lookup-insert, lookup-delete}
use jobx.Text.{Text, text_discrete}
use jobx.Options.{ConflictPolicy, conflict_skip, conflict_replace, conflict_allow}
use jobx.InFlight.{
  InFlight, ids_of, add_in_flight, put_set, release_found, release_in_flight, claimed, taken,
  claim_skip, claim_replace, claim,
}

-- The policies under which the sets are kept.
abbrev pub tracks : ConflictPolicy → Bool
tracks conflict_allow = false
tracks conflict_skip = true
tracks conflict_replace = true

pub ids_of-add_in_flight :
    (n name id : Text) (m : InFlight)
    → ids_of n (add_in_flight name id m)
      ≡ ite (text_discrete name n) (add text_discrete id (ids_of name m)) (ids_of n m)
unfolding add_in_flight
ids_of-add_in_flight n name id m =
    ground (arith, lookup-insert text_discrete n name (add text_discrete id (ids_of name m)) m)

ids_of-put_set :
    (n name : Text) (set : List Text) (m : InFlight)
    → ids_of n (put_set name set m) ≡ ite (text_discrete name n) set (ids_of n m)
unfolding put_set
ids_of-put_set n name [] m = ground (arith, lookup-delete text_discrete n name m)
ids_of-put_set n name (id ∷ set) m = ground (arith, lookup-insert text_discrete n name (id ∷ set) m)

ids_of-release_found :
    (o : Option (List Text)) (n name id : Text) (m : InFlight)
    → lookup text_discrete name m ≡ o
    → ids_of n (release_found o name id m)
      ≡ ite (text_discrete name n) (discard text_discrete id (ids_of name m)) (ids_of n m)
unfolding release_found discard
ids_of-release_found none n name id m e = elim (text_discrete name n) [
  | yes p ↦
      let none_here : lookup text_discrete n m ≡ none = rw p at e in
      rw (none_here, e) (ground arith)
  | no q ↦ ground arith
]
ids_of-release_found (some set) n name id m e =
    ground (arith, ids_of-put_set n name (discard text_discrete id set) m)

-- Under a policy that keeps the sets, releasing a job takes its id out of the set of its name, and
-- leaves the other names alone.
pub ids_of-release_in_flight :
    (p : ConflictPolicy) (n name id : Text) (m : InFlight)
    → tracks p ≡ true
    → ids_of n (release_in_flight p name id m)
      ≡ ite (text_discrete name n) (discard text_discrete id (ids_of name m)) (ids_of n m)
unfolding release_in_flight
ids_of-release_in_flight conflict_allow n name id m h = cc
ids_of-release_in_flight conflict_skip n name id m h = ids_of-release_found _ n name id m refl
ids_of-release_in_flight conflict_replace n name id m h = ids_of-release_found _ n name id m refl

-- At most one job of each name is in flight.
abbrev pub IsExclusive : InFlight → Type 0
IsExclusive m = (n : Text) → length (ids_of n m) ≤ 1

-- What an admitted claim comes to, under the policies that keep the sets: the new id is the only
-- one of its name; what was there before is to be cancelled; the other names are as they were.
pub record Claims (p : ConflictPolicy) (name id : Text) (m m' : InFlight) (olds : List Text)
    : Type 0 where
  pub alone : ids_of name m' ≡ id ∷ []
  pub others : (n : Text) → name ≢ n → ids_of n m' ≡ ids_of n m
  pub replaced : olds ≡ ids_of name m

claim_skip-Claims :
    (set : List Text) (p : ConflictPolicy) (name id : Text) (m m' : InFlight) (olds : List Text)
    → ids_of name m ≡ set
    → claim_skip set name id m ≡ claimed m' olds
    → Claims p name id m m' olds
unfolding claim_skip add contains
claim_skip-Claims [] p name id m m' olds e c = record {
  alone = ground (arith, ids_of-add_in_flight name name id m);
  others = λ n ne. ground (arith, ids_of-add_in_flight n name id m);
  replaced = ground arith;
}
claim_skip-Claims (x ∷ xs) p name id m m' olds e c = absurd (ground arith)

ids_of-delete :
    (n name : Text) (m : InFlight)
    → ids_of n (delete text_discrete name m) ≡ ite (text_discrete name n) [] (ids_of n m)
ids_of-delete n name m = ground (arith, lookup-delete text_discrete n name m)

claim_replace-Claims :
    (set : List Text) (p : ConflictPolicy) (name id : Text) (m m' : InFlight) (olds : List Text)
    → ids_of name m ≡ set
    → claim_replace set name id m ≡ claimed m' olds
    → Claims p name id m m' olds
unfolding claim_replace add contains
claim_replace-Claims [] p name id m m' olds e c = record {
  alone = ground (arith, ids_of-add_in_flight name name id m);
  others = λ n ne. ground (arith, ids_of-add_in_flight n name id m);
  replaced = ground arith;
}
claim_replace-Claims (x ∷ xs) p name id m m' olds e c =
    let m₁ = delete text_discrete name m in
    record {
      alone = ground (arith, ids_of-add_in_flight name name id m₁, ids_of-delete name name m);
      others = λ n ne. ground (arith, ids_of-add_in_flight n name id m₁, ids_of-delete n name m);
      replaced = ground arith;
    }

-- A claim that is admitted under a policy that keeps the sets makes the new id the only one of its
-- name, names the ids that it replaces, and leaves the other names alone.
pub claim-Claims :
    (p : ConflictPolicy) (name id : Text) (m m' : InFlight) (olds : List Text)
    → tracks p ≡ true
    → claim p name id m ≡ claimed m' olds
    → Claims p name id m m' olds
unfolding claim
claim-Claims conflict_allow name id m m' olds h c = cc
claim-Claims conflict_skip name id m m' olds h c =
    claim_skip-Claims (ids_of name m) conflict_skip name id m m' olds refl c
claim-Claims conflict_replace name id m m' olds h c =
    claim_replace-Claims (ids_of name m) conflict_replace name id m m' olds refl c

-- Where at most one job of each name is in flight, the same holds after a claim that is admitted
-- under a policy that keeps the sets.
pub claim-IsExclusive :
    (p : ConflictPolicy) (name id : Text) (m m' : InFlight) (olds : List Text)
    → tracks p ≡ true
    → claim p name id m ≡ claimed m' olds
    → IsExclusive m
    → IsExclusive m'
claim-IsExclusive p name id m m' olds h c x n =
    let k = claim-Claims p name id m m' olds h c in
    elim (text_discrete name n) [
      | yes same ↦ rw (← same, k.alone) (omega arith)
      | no other ↦ rw (k.others n other) (x n)
    ]

-- Under the skip policy a claim is refused exactly when a job of the name is in flight.
pub claim_skip_taken :
    (name id : Text) (m : InFlight) → (claim conflict_skip name id m ≡ taken) ↔ (ids_of name m ≢ [])
unfolding claim claim_skip
claim_skip_taken name id m = skip_taken (ids_of name m)
  where
    skip_taken : (set : List Text) → (claim_skip set name id m ≡ taken) ↔ (set ≢ [])
    skip_taken [] = (λ e. λ _. cc, λ n. absurd (n refl))
    skip_taken (x ∷ xs) = (λ e. λ p. cc, λ n. refl)

-- What a claim under the skip policy replaces: nothing.
pub skip_claims_free :
    (name id : Text) (m m' : InFlight) (olds : List Text)
    → claim conflict_skip name id m ≡ claimed m' olds
    → (ids_of name m ≡ []) × (olds ≡ [])
unfolding claim claim_skip
skip_claims_free name id m m' olds c = skip_free (ids_of name m) c
  where
    skip_free :
        (set : List Text) → claim_skip set name id m ≡ claimed m' olds → (set ≡ []) × (olds ≡ [])
    skip_free [] e = (refl, ground arith)
    skip_free (x ∷ xs) e = absurd (ground arith)
