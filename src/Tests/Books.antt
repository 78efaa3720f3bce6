-- ===== src/Tests/Books.antt =====
-- The in-flight sets and the status table at concrete inputs.
use jobx.Prelude.{◌≡◌, ◌≢◌, refl, [], ◌∷◌, arith}
use jobx.Prelude.Maps.{lookup, insert, delete, add, contains}
use jobx.Text.{text_discrete}
use jobx.Options.{conflict_replace}
use jobx.InFlight.{InFlight, claim, claimed, add_in_flight}
use jobx.InFlight.Claims.{Claims, claim-Claims, IsExclusive}
use jobx.Status.{Status, StatusTable, mark_status, empty_table}
use jobx.Status.Table.{IsConsistent, mark_status-IsConsistent}
use jobx.Tests.Samples.{mail, id_a, id_b}

abbrev flights : InFlight
flights = (mail, id_a ∷ []) ∷ []

-- The map after the job `id_b` has replaced the job `id_a`.
abbrev flights_b : InFlight
flights_b = (mail, id_b ∷ []) ∷ []

replaced_one : claim conflict_replace mail id_b flights ≡ claimed flights_b (id_a ∷ [])
unfolding claim add_in_flight insert delete lookup add contains text_discrete
replaced_one = refl

claim-Claims_example : Claims conflict_replace mail id_b flights flights_b (id_a ∷ [])
claim-Claims_example =
    claim-Claims conflict_replace mail id_b flights flights_b (id_a ∷ []) refl replaced_one

flights-IsExclusive : IsExclusive flights
unfolding lookup
flights-IsExclusive n = ground arith

empty_table-IsConsistent : IsConsistent empty_table
unfolding empty_table lookup contains
empty_table-IsConsistent = record { listed = λ id. refl; distinct = tt; bounded = omega arith }

abbrev one_status : StatusTable
one_status = mark_status id_a Status.running empty_table

mark_status-IsConsistent_example : IsConsistent one_status
mark_status-IsConsistent_example =
    mark_status-IsConsistent id_a Status.running empty_table empty_table-IsConsistent

a_is_not_b : id_a ≢ id_b
a_is_not_b e = ground arith
