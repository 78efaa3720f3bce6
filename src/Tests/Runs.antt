-- ===== src/Tests/Runs.antt =====
-- internal/core/dispatcher.go and internal/core/worker.go at concrete inputs.
use jobx.Prelude.{◌≡◌, refl, true, false, [], ◌∷◌, some, arith}
use jobx.Prelude.Maps.{lookup, contains}
use jobx.Text.{text_discrete}
use jobx.Errors.{ok, foreign, wrap_code, store_invalid}
use jobx.Job.{JobEntry, apply_options}
use jobx.Options.{saves, deletes}
use jobx.Status.{Status}
use jobx.Status
use jobx.InFlight.{ids_of, claim}
use jobx.Logs.{LogEntry, Span}
use jobx.Dispatcher.State.{Handler, panicked, Dispatcher, alone, fails}
use jobx.Dispatcher.Steps.{
  is_cancelled, metric, mark_status, validate_name, task_name_rule, persist,
}
use jobx.Dispatcher.Cancel.{cancel_by_id}
use jobx.Dispatcher.Submit.{
  submit_with_options, build_entry, apply_conflict, apply_claim, cancel_all, submit_claimed,
  submit_entry, submit_ready,
}
use jobx.Dispatcher.Submit.Frame.{Same-refl, QuietMeanwhile}
use jobx.Dispatcher.Submit.Rollback.{SameBooks, submit_with_options-rollback}
use jobx.Dispatcher.Run.{hand_over, begin_run, run_entry, retry_entry}
use jobx.Dispatcher.Run.Ends.{run_entry-status, started}
use jobx.Dispatcher.Run.Retry.{run_entry-retry_unsaved, run_entry-retry_released, stored}
use jobx.Dispatcher.Delay.{move_due, drain_delayed}
use jobx.Dispatcher.Delay.Ends.{Drains, drain_delayed-empties, move_due-lost}
use jobx.Dispatcher.Run.Traces.{run_entry-open_span}
use jobx.Tests.Samples.{
  mail, id_a, id_b, entry_a, entry_b, store, failing, idle_dispatcher, busy_dispatcher,
}

-- No other goroutine touches the dispatcher.
abbrev nobody : Dispatcher → Dispatcher
nobody d = d

-- The handler calls `Cancel` on its own job.
abbrev own_cancel : Dispatcher → Dispatcher
own_cancel d = cancel_by_id id_a d

not_cancelled : is_cancelled id_a busy_dispatcher ≡ false
unfolding is_cancelled contains
not_cancelled = refl

kept_alive :
    is_cancelled id_a (nobody (hand_over entry_a.job (started entry_a busy_dispatcher))) ≡ false
unfolding is_cancelled contains begin_run metric mark_status
kept_alive = refl

run_entry-status_example :
    Status.job_status id_a (run_entry nobody entry_a busy_dispatcher).table ≡ ok Status.delayed
unfolding is_cancelled contains lookup text_discrete begin_run metric mark_status
run_entry-status_example = run_entry-status nobody entry_a busy_dispatcher not_cancelled

-- The 70th attempt, in a job that has many.
abbrev late_entry : JobEntry
late_entry = record { job = record entry_a.job { attempt = 70; max_retries = 100 } }

found_failing : lookup text_discrete mail busy_dispatcher.handlers ≡ some failing
unfolding lookup text_discrete
found_failing = refl

run_entry-retry_released_example :
    contains text_discrete id_a (ids_of mail (run_entry nobody entry_a busy_dispatcher).in_flight)
    ≡ false
unfolding begin_run metric mark_status
run_entry-retry_released_example =
    run_entry-retry_released nobody entry_a busy_dispatcher failing (foreign mail) not_cancelled
      found_failing kept_alive refl refl refl

run_entry-retry_unsaved_example :
    ((run_entry nobody entry_a busy_dispatcher).store_calls
      ≡ deletes id_a ∷ saves (retry_entry entry_a 10).job ∷ [])
    × (stored id_a (run_entry nobody entry_a busy_dispatcher).store_calls ≡ false)
unfolding begin_run metric mark_status
run_entry-retry_unsaved_example =
    run_entry-retry_unsaved nobody entry_a busy_dispatcher failing (foreign mail) not_cancelled
      found_failing kept_alive refl refl store refl

quiet_alone : QuietMeanwhile alone
quiet_alone = record { wakes = tt; after_push = Same-refl; after_mark = Same-refl }

-- A job of the other name is refused by the store, whose first answer is an error.
abbrev refused_dispatcher : Dispatcher
refused_dispatcher = (submit_with_options alone mail [] [] idle_dispatcher).1

store_refuses :
    submit_with_options alone mail [] [] idle_dispatcher
    ≡ (fails (wrap_code (foreign []) store_invalid), refused_dispatcher)
unfolding submit_with_options build_entry apply_options apply_conflict submit_claimed submit_entry
    submit_ready persist claim apply_claim cancel_all validate_name task_name_rule lookup
    text_discrete
store_refuses = refl

submit_with_options-rollback_example : SameBooks idle_dispatcher refused_dispatcher
unfolding lookup
submit_with_options-rollback_example =
    submit_with_options-rollback alone mail [] [] idle_dispatcher refused_dispatcher
      (wrap_code (foreign []) store_invalid) quiet_alone refl (λ id e. refl) store_refuses

drain_delayed-empties_example : Drains busy_dispatcher (drain_delayed busy_dispatcher)
drain_delayed-empties_example =
    drain_delayed-empties busy_dispatcher (λ c p q. absurd (omega arith))

-- Closed, with as many entries as it has places.
abbrev closed_dispatcher : Dispatcher
closed_dispatcher = record busy_dispatcher {
  ready = record busy_dispatcher.ready { closed = true; capacity = 1 };
}

not_cancelled_b : is_cancelled id_b closed_dispatcher ≡ false
unfolding is_cancelled contains
not_cancelled_b = refl

move_due-lost_example :
    ((move_due alone entry_b closed_dispatcher).1.ready ≡ closed_dispatcher.ready)
    × (Status.job_status id_b (move_due alone entry_b closed_dispatcher).1.table ≡ ok Status.queued)
move_due-lost_example = move_due-lost entry_b closed_dispatcher not_cancelled_b refl (omega arith)

-- A handler that panics, under a trace hook.
abbrev panicking : Handler
panicking job = panicked job.name

abbrev traced_dispatcher : Dispatcher
traced_dispatcher = record busy_dispatcher {
  cfg = record busy_dispatcher.cfg { trace_hook = true };
  handlers = (mail, panicking) ∷ [];
}

found_panicking : lookup text_discrete mail traced_dispatcher.handlers ≡ some panicking
unfolding lookup text_discrete
found_panicking = refl

not_cancelled_traced : is_cancelled id_a traced_dispatcher ≡ false
unfolding is_cancelled contains
not_cancelled_traced = refl

run_entry-open_span_example :
    ((run_entry nobody entry_a traced_dispatcher).spans ≡ Span.opens entry_a.job ∷ [])
    × ((e : LogEntry) × ((run_entry nobody entry_a traced_dispatcher).logs
          ≡ e ∷ LogEntry.panicked entry_a.job mail ∷ LogEntry.started entry_a.job ∷ []))
unfolding begin_run metric mark_status
run_entry-open_span_example =
    run_entry-open_span nobody entry_a traced_dispatcher panicking mail not_cancelled_traced
      found_panicking refl refl
