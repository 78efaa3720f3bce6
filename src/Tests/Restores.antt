-- ===== src/Tests/Restores.antt =====
-- `Restore` and `popDue` of internal/core/dispatcher.go at concrete inputs.
use jobx.Prelude.{zero, ◌≡◌, refl, List, [], ◌∷◌, some, arith}
use jobx.Prelude.Maps.{lookup, contains}
use jobx.Text.{text_discrete}
use jobx.Errors.{Error, ok, foreign}
use jobx.Job.{Job, with_run_at}
use jobx.Options.{Store}
use jobx.Dispatcher.State.{Dispatcher, Meanwhile, alone, returns, fails}
use jobx.Dispatcher.Submit.{submit_with_options}
use jobx.Dispatcher.Restore.Stranded.{at_push, restore-strands}
use jobx.Heap
use jobx.ReadyQueue.{done, push, push_round, signal}
use jobx.Dispatcher.Steps.{is_cancelled, metric, mark_status}
use jobx.Dispatcher.Delay.{pop_due, is_due_now, take_delayed, move_due}
use jobx.Dispatcher.Delay.Due.{Delivers, alones, pop_due-Delivers}
use jobx.Dispatcher.Restore.{restore}
use jobx.Dispatcher.Restore.Later.{Restores, restore-Restores, entries_of}
use jobx.Tests.Samples.{
  mail, failing, wipe, id_a, id_b, job_at, entry_at, store, config, idle_dispatcher,
  busy_dispatcher, entry_a, entry_b,
}

-- Two jobs are stored; the name of one of them has no handler.
abbrev stored : List Job
stored = job_at id_a mail 20 ∷ job_at id_b wipe 30 ∷ []

abbrev full_store : Store
full_store = record store { list = λ calls. ok stored }

abbrev restarted : Dispatcher
restarted = record idle_dispatcher { cfg = record config { store = some full_store } }

known : entries_of restarted.handlers stored ≡ entry_at id_a mail 20 ∷ []
unfolding lookup text_discrete
known = refl

restore-Restores_example : Restores stored zero restarted (restore [] restarted)
restore-Restores_example =
    restore-Restores [] stored restarted full_store refl refl
      (λ n. omega arith, (λ n. omega arith, tt)) (λ c p q. absurd (omega arith))

-- The delayed job of a dispatcher follows the one that waits already.
delivered : (pop_due (alones 1) 100 busy_dispatcher).1.ready.items ≡ entry_a ∷ entry_b ∷ []
unfolding pop_due is_due_now take_delayed move_due Heap.pop Heap.down push push_round signal
    is_cancelled contains Heap.swap metric mark_status
delivered = refl

pop_due-Delivers_example : Delivers 0 100 busy_dispatcher (pop_due (alones 1) 100 busy_dispatcher)
pop_due-Delivers_example =
    pop_due-Delivers 1 100 busy_dispatcher (omega arith) (omega arith)
      (λ c p q. absurd (omega arith))

-- A store that lists one job, which is due, when the queue is full.
abbrev due_store : Store
due_store = record store { list = λ calls. ok (job_at id_a mail 5 ∷ []) }

abbrev crowded : Dispatcher
crowded = record idle_dispatcher {
  cfg = record config { store = some due_store };
  ready = record idle_dispatcher.ready { items = entry_b ∷ entry_b ∷ [] };
}

-- Nothing happens until the context of the call ends.
abbrev gives_up : Meanwhile
gives_up = record alone { wakes = done (λ d. d) (foreign mail) ∷ [] }

mail_handled : lookup text_discrete mail crowded.handlers ≡ some failing
unfolding lookup text_discrete
mail_handled = refl

restore-strands_example :
    (restore (gives_up ∷ []) crowded
      ≡ (returns (0, some (foreign mail)), at_push (job_at id_a mail 5) crowded))
    × ((e : Error) × (d : Dispatcher) × (submit_with_options alone mail []
            (with_run_at 100 ∷ [])
            (restore (gives_up ∷ []) crowded).1
          ≡ (fails e, d)))
restore-strands_example =
    restore-strands gives_up alone [] (job_at id_a mail 5) [] [] (with_run_at 100 ∷ []) crowded
      due_store failing (λ d. d) (foreign mail) [] refl refl refl mail_handled (omega arith) refl
      (omega arith) refl refl refl
