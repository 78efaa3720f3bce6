-- ===== src/Status.antt =====
-- internal/core/dispatcher.go: the table of job statuses, `markStatus` and `JobStatus`. Each is one
-- critical section under `statusMu`.
pub mod Table
use jobx.Prelude.{ℕ, List, [], ◌∷◌, ◌++◌, Option, none, some, length, ltb, if◌then◌else◌}
use jobx.Prelude.Maps.{lookup, insert, delete}
use jobx.Text.{Text, text_discrete}
use jobx.Errors.{Result, ok, err, err_job_not_found}

pub data Status : Type 0 where
  queued delayed running succeeded failed cancelled : Status

abbrev pub max_status_count : ℕ
max_status_count = 10000

pub record StatusTable : Type 0 where
  pub statuses : List (Text × Status)
  -- The ids in the order of their first status.
  pub order : List Text

unfoldable pub empty_table : StatusTable
empty_table = record { statuses = []; order = [] }

-- The oldest id leaves the order and the statuses.
evict_oldest : List Text → StatusTable → StatusTable
evict_oldest [] t = t
evict_oldest (oldest ∷ rest) t = record {
  statuses = delete text_discrete oldest t.statuses;
  order = rest;
}

-- A new id is appended to the order; above the limit the oldest id is evicted.
admit : Text → StatusTable → StatusTable
unfolding evict_oldest
admit id t =
    let order = t.order ++ id ∷ [] in
    if ltb max_status_count (length order)
    then evict_oldest order (record t { order = order })
    else record t { order = order }

admit_if_new : Option Status → Text → StatusTable → StatusTable
unfolding admit
admit_if_new none id t = admit id t
admit_if_new (some s) id t = t

unfoldable pub mark_status : Text → Status → StatusTable → StatusTable
unfolding admit_if_new
mark_status id s t =
    let t' = admit_if_new (lookup text_discrete id t.statuses) id t in
    record t' { statuses = insert text_discrete id s t'.statuses }

found_status : Option Status → Result Status
found_status none = err err_job_not_found
found_status (some s) = ok s

unfoldable pub job_status : Text → StatusTable → Result Status
unfolding found_status
job_status id t = found_status (lookup text_discrete id t.statuses)
