-- ===== src/InFlight.antt =====
-- internal/core/dispatcher.go: the in-flight sets, which hold for each job name the ids that count
-- as in flight. Each function is what one critical section under `inFlightMu` does to the map.
pub mod Claims
use jobx.Prelude.{Bool, true, false, List, [], ◌∷◌, Option, none, some}
use jobx.Prelude.Maps.{lookup, insert, delete, add, discard}
use jobx.Text.{Text, text_discrete}
use jobx.Options.{ConflictPolicy, conflict_skip, conflict_replace, conflict_allow}

abbrev pub InFlight : Type 0
InFlight = List (Text × List Text)

abbrev set_or_empty : Option (List Text) → List Text
set_or_empty none = []
set_or_empty (some set) = set

-- `d.inFlight[name]`, where a missing set reads as an empty one.
abbrev pub ids_of : Text → InFlight → List Text
ids_of name m = set_or_empty (lookup text_discrete name m)

-- `addInFlightLocked`.
unfoldable pub add_in_flight : Text → Text → InFlight → InFlight
add_in_flight name id m = insert text_discrete name (add text_discrete id (ids_of name m)) m

-- The end of `releaseInFlight`: an empty set is taken off the map.
put_set : Text → List Text → InFlight → InFlight
put_set name [] m = delete text_discrete name m
put_set name (id ∷ set) m = insert text_discrete name (id ∷ set) m

release_found : Option (List Text) → Text → Text → InFlight → InFlight
unfolding put_set
release_found none name id m = m
release_found (some set) name id m = put_set name (discard text_discrete id set) m

-- `releaseInFlight`.
unfoldable pub release_in_flight : ConflictPolicy → Text → Text → InFlight → InFlight
unfolding release_found
release_in_flight conflict_allow name id m = m
release_in_flight conflict_skip name id m = release_found (lookup text_discrete name m) name id m
release_in_flight conflict_replace name id m = release_found (lookup text_discrete name m) name id m

-- What the critical section of `applyConflict` comes to: the new map with the ids to be cancelled,
-- or the refusal.
pub data Claim : Type 0 where
  claimed : InFlight → List Text → Claim
  taken : Claim

unfoldable pub claim_skip : List Text → Text → Text → InFlight → Claim
claim_skip [] name id m = claimed (add_in_flight name id m) []
claim_skip (_ ∷ _) name id m = taken

claim_replace : List Text → Text → Text → InFlight → Claim
claim_replace [] name id m = claimed (add_in_flight name id m) []
claim_replace (old ∷ olds) name id m =
    claimed (add_in_flight name id (delete text_discrete name m)) (old ∷ olds)

unfoldable pub claim : ConflictPolicy → Text → Text → InFlight → Claim
unfolding claim_skip claim_replace
claim conflict_allow name id m = claimed m []
claim conflict_skip name id m = claim_skip (ids_of name m) name id m
claim conflict_replace name id m = claim_replace (ids_of name m) name id m

-- `addInFlightForRestore`.
unfoldable pub restore_in_flight : ConflictPolicy → Text → Text → InFlight → InFlight
restore_in_flight conflict_allow name id m = m
restore_in_flight conflict_skip name id m = add_in_flight name id m
restore_in_flight conflict_replace name id m = add_in_flight name id m
