-- ===== src/Dispatcher/Cancel.antt =====
-- internal/core/dispatcher.go: `cancelByIDLocked` and `Cancel`.
pub mod Effects
use mathlib.Core.Option
use jobx.Prelude.{ℕ, suc, List, [], ◌∷◌, Option, none, some, ite, if◌then◌else◌}
use jobx.Prelude.Maps.{lookup, contains, add}
use jobx.Text.{Text, text_discrete}
use jobx.Job.{JobEntry}
use jobx.ReadyQueue
use jobx.Heap
use jobx.Status
use jobx.Dispatcher.State.{Dispatcher, Call, ◌>>=◌, lift, update}
use jobx.Dispatcher.Steps.{run_key, mark_status, release_job, delete_stored}

-- The index at which the loop over `delayHeap` stops.
unfoldable pub index_of : Text → List JobEntry → Option ℕ
index_of id [] = none
index_of id (e ∷ l) = ite (text_discrete e.job.id id) (some 0) (Option.map suc (index_of id l))

unfoldable pub remove_at : Option ℕ → List JobEntry → List JobEntry
remove_at none l = l
remove_at (some i) l = (Heap.remove run_key l i).1

-- The section under `delayMu`.
unfoldable pub remove_delayed : Text → List JobEntry → List JobEntry
unfolding index_of remove_at
remove_delayed id l = remove_at (index_of id l) l

unfoldable pub release_named : Option Text → Text → Dispatcher → Dispatcher
release_named none id d = d
release_named (some name) id d = release_job name id d

unfoldable pub cancel_by_id : Text → Dispatcher → Dispatcher
cancel_by_id id d =
    let d₁ = record d { delay_heap = remove_delayed id d.delay_heap } in
    let d₂ = record d₁ { ready = (ReadyQueue.remove id d₁.ready).0 } in
    let d₃ = record d₂ { cancelled = add text_discrete id d₂.cancelled } in
    let d₄ = release_named (lookup text_discrete id d₃.job_names) id d₃ in
    let d₅ = delete_stored id d₄ in
    let d₆ =
      if contains text_discrete id d₅.executing
      then record d₅ { context_cancels = id ∷ d₅.context_cancels }
      else d₅ in
    mark_status id Status.cancelled d₆

-- `Cancel`.
unfoldable pub cancel : Text → Call (Unit {0})
cancel id d = (do _ ← lift (Status.job_status id d.table); update (cancel_by_id id)) d
