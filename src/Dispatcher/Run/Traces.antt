-- ===== src/Dispatcher/Run/Traces.antt =====
-- internal/core/worker.go: what the trace hook sees of an execution.
use jobx.Prelude.{arith, ◌∷◌, ◌≡◌, refl, true, false, Option, none, some, Bool-cases, inl, inr}
use jobx.Prelude.Maps.{lookup}
use jobx.Text.{Text, text_discrete}
use jobx.Clock.{Time}
use jobx.Errors.{Error}
use jobx.Job.{Job, JobEntry}
use jobx.Logs.{LogEntry}
use jobx.Options.{Store}
use jobx.Dispatcher.State.{Dispatcher, Handler, panicked}
use jobx.Dispatcher.Steps.{
  mark_status, metric, release_job, delete_stored, is_cancelled, push_delayed,
}
use jobx.Dispatcher.Run.{
  hand_over, end_handler, save_in, save_stored, schedule_retry, clean_up, outcome_error, may_retry,
  conclude, execute, dispatch, run_entry,
}
use jobx.Dispatcher.Run.Ends.{started, run_entry_live}

clean_up-spans : (job : Job) (d : Dispatcher) → (clean_up job d).spans ≡ d.spans
unfolding clean_up delete_stored release_job metric
clean_up-spans job d = ground arith

save_in-spans : (s : Option Store) (job : Job) (d : Dispatcher) → (save_in s job d).spans ≡ d.spans
unfolding save_in
save_in-spans none job d = refl
save_in-spans (some store) job d = refl

conclude-spans :
    (e : Option Error) (start : Time) (entry : JobEntry) (d : Dispatcher)
    → (conclude e start entry d).spans ≡ d.spans
unfolding conclude metric mark_status schedule_retry push_delayed save_stored
conclude-spans none start entry d = refl
conclude-spans (some e) start entry d = elim (Bool-cases (may_retry entry.job)) [
  | inl again ↦ rw (again, save_in-spans) refl
  | inr over ↦ rw over refl
]

execute-spans :
    (others : Dispatcher → Dispatcher) (h : Handler) (entry : JobEntry) (d : Dispatcher)
    → (execute others h entry d).spans
      ≡ (end_handler (h entry.job) entry.job (others (hand_over entry.job d))).spans
unfolding execute mark_status
execute-spans others h entry d =
    elim (Bool-cases (is_cancelled entry.job.id (others (hand_over entry.job d)))) [
      | inl gone ↦ rw gone refl
      | inr kept ↦ rw kept (conclude-spans (outcome_error (h entry.job)) _ entry _)
    ]

clean_up-logs : (job : Job) (d : Dispatcher) → (clean_up job d).logs ≡ d.logs
unfolding clean_up delete_stored release_job metric
clean_up-logs job d = ground arith

save_in-logs : (s : Option Store) (job : Job) (d : Dispatcher) → (save_in s job d).logs ≡ d.logs
unfolding save_in
save_in-logs none job d = refl
save_in-logs (some store) job d = refl

-- The dispatcher's log has one entry more.
abbrev LogsOnce : Dispatcher → Dispatcher → Type 0
LogsOnce d d' = (e : LogEntry) × (d'.logs ≡ e ∷ d.logs)

conclude-LogsOnce :
    (e : Error) (start : Time) (entry : JobEntry) (d : Dispatcher)
    → LogsOnce d (conclude (some e) start entry d)
unfolding conclude metric mark_status schedule_retry push_delayed save_stored
conclude-LogsOnce e start entry d = elim (Bool-cases (may_retry entry.job)) [
  | inl again ↦ rw (again, save_in-logs) (_, refl)
  | inr over ↦ rw over (_, refl)
]

execute-LogsOnce :
    (others : Dispatcher → Dispatcher) (h : Handler) (entry : JobEntry) (d : Dispatcher)
    (value : Text)
    → h entry.job ≡ panicked value
    → LogsOnce
        (end_handler (h entry.job) entry.job (others (hand_over entry.job d)))
        (execute others h entry d)
unfolding execute mark_status
execute-LogsOnce others h entry d value fails =
    elim (Bool-cases (is_cancelled entry.job.id (others (hand_over entry.job d)))) [
      | inl gone ↦ rw gone (_, refl)
      | inr kept ↦ rw (kept, fails) (conclude-LogsOnce _ _ entry _)
    ]

-- A handler that panics leaves the span of its execution open, if there is a trace hook: after the
-- handler, and whatever the others did meanwhile, `runEntry` adds nothing to the spans, while it
-- logs the panic and then one entry more, in whichever way it ends.
pub run_entry-open_span :
    (others : Dispatcher → Dispatcher) (entry : JobEntry) (d : Dispatcher) (h : Handler)
    (value : Text)
    → is_cancelled entry.job.id d ≡ false
    → lookup text_discrete entry.job.name d.handlers ≡ some h
    → h entry.job ≡ panicked value
    → (others (hand_over entry.job (started entry d))).cfg.trace_hook ≡ true
    → ((run_entry others entry d).spans ≡ (others (hand_over entry.job (started entry d))).spans)
      × ((e : LogEntry) × ((run_entry others entry d).logs
            ≡ e
              ∷ LogEntry.panicked entry.job value
              ∷ (others (hand_over entry.job (started entry d))).logs))
unfolding dispatch
run_entry-open_span others entry d h value live found fails set =
    let (e, p) = execute-LogsOnce others h entry (started entry d) value fails in
    rw (run_entry_live others entry d live, found, clean_up-spans, execute-spans, clean_up-logs)
      (rw (fails, set) refl, (e, rw (p, fails) refl))
