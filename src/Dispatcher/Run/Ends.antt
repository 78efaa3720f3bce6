-- ===== src/Dispatcher/Run/Ends.antt =====
-- internal/core/worker.go: how an execution ends.
use jobx.Prelude.{
  ℕ, ◌≡◌, Bool, true, false, Option, none, some, if◌then◌else◌, arith, Bool-cases, inl, inr,
}
use jobx.Prelude.Maps.{lookup, discard, contains, contains-discard}
use jobx.Text.{text_discrete}
use jobx.Errors.{Error, ok}
use jobx.Job.{Job, JobEntry}
use jobx.Status.{Status}
use jobx.Status
use jobx.Status.Table.{job_status-mark_status}
use jobx.Metrics.{MetricEvent, Delta}
use jobx.Dispatcher.State.{Dispatcher, Handler}
use jobx.Dispatcher.Steps.{mark_status, metric, release_job, delete_stored, is_cancelled}
use jobx.Dispatcher.Run.{
  hand_over, schedule_retry, clean_up, outcome_error, may_retry, conclude, execute, dispatch,
  begin_run, run_entry,
}

-- The dispatcher when the handler of a job starts.
abbrev pub started : JobEntry → Dispatcher → Dispatcher
started entry d = begin_run entry.job (metric (MetricEvent.queued entry.job.name Delta.minus_one) d)

-- The status that an execution should end with: by the error of the handler, unless the job was
-- cancelled meanwhile.
abbrev status_of_error : Option Error → Job → Status
status_of_error none job = Status.succeeded
status_of_error (some e) job = if may_retry job then Status.delayed else Status.failed

abbrev pub end_status : Option Handler → Bool → Job → Status
end_status none cancelled job = Status.failed
end_status (some h) true job = Status.cancelled
end_status (some h) false job = status_of_error (outcome_error (h job)) job

clean_up-table : (job : Job) (d : Dispatcher) → (clean_up job d).table ≡ d.table
unfolding clean_up delete_stored release_job metric
clean_up-table job d = ground arith

conclude-status :
    (e : Option Error) (start : ℕ) (entry : JobEntry) (d : Dispatcher)
    → Status.job_status entry.job.id (conclude e start entry d).table
      ≡ ok (status_of_error e entry.job)
unfolding conclude metric mark_status schedule_retry
conclude-status none start entry d = job_status-mark_status entry.job.id Status.succeeded d.table
conclude-status (some e) start entry d = elim (Bool-cases (may_retry entry.job)) [
  | inl again ↦ rw again (job_status-mark_status entry.job.id Status.delayed _)
  | inr over ↦ rw over (job_status-mark_status entry.job.id Status.failed d.table)
]

dispatch-status :
    (h : Option Handler) (others : Dispatcher → Dispatcher) (entry : JobEntry) (d : Dispatcher)
    → Status.job_status entry.job.id (dispatch h others entry d).table
      ≡ ok (end_status h (is_cancelled entry.job.id (others (hand_over entry.job d))) entry.job)
unfolding dispatch execute metric mark_status
dispatch-status none others entry d = job_status-mark_status entry.job.id Status.failed d.table
dispatch-status (some h) others entry d =
    elim (Bool-cases (is_cancelled entry.job.id (others (hand_over entry.job d)))) [
      | inl gone ↦ rw (gone, execute) (job_status-mark_status entry.job.id Status.cancelled _)
      | inr kept ↦ rw (kept, execute) (conclude-status (outcome_error (h entry.job)) _ entry _)
    ]

-- The two ways of `runEntry`.
pub run_entry_live :
    (others : Dispatcher → Dispatcher) (entry : JobEntry) (d : Dispatcher)
    → is_cancelled entry.job.id d ≡ false
    → run_entry others entry d
      ≡ clean_up entry.job
          (dispatch (lookup text_discrete entry.job.name d.handlers) others entry (started entry d))
unfolding run_entry is_cancelled begin_run metric mark_status
run_entry_live others entry d h = rw h

pub run_entry_gone :
    (others : Dispatcher → Dispatcher) (entry : JobEntry) (d : Dispatcher)
    → is_cancelled entry.job.id d ≡ true
    → run_entry others entry d
      ≡ release_job entry.job.name entry.job.id (
          mark_status entry.job.id Status.cancelled
            (metric (MetricEvent.queued entry.job.name Delta.minus_one) d))
unfolding run_entry is_cancelled metric
run_entry_gone others entry d h = rw h

-- If the other goroutines act only while the handler runs, when they and the handler may do anything to
-- the dispatcher, and not between the check for a cancellation and the start, nor between the end of
-- the handler and the end of `runEntry`, then the status of a job that a worker takes and that was not
-- cancelled before is, when `runEntry` is over, the one that its end calls for: failed without a
-- handler, cancelled if it was cancelled while the handler ran, succeeded if the handler returned nil,
-- and after an error or a panic delayed while retries are left and failed otherwise.
pub run_entry-status :
    (others : Dispatcher → Dispatcher) (entry : JobEntry) (d : Dispatcher)
    → is_cancelled entry.job.id d ≡ false
    → Status.job_status entry.job.id (run_entry others entry d).table
      ≡ ok (
          end_status
            (lookup text_discrete entry.job.name d.handlers)
            (is_cancelled entry.job.id (others (hand_over entry.job (started entry d))))
            entry.job)
run_entry-status others entry d h =
    let found = lookup text_discrete entry.job.name d.handlers in
    rw (run_entry_live others entry d h, clean_up-table)
      (dispatch-status found others entry (started entry d))

clean_up-executing :
    (job : Job) (d : Dispatcher)
    → (clean_up job d).executing ≡ discard text_discrete job.id d.executing
unfolding clean_up delete_stored release_job metric
clean_up-executing job d = ground arith

-- When `runEntry` is over, the job's cancel function is no longer stored, however the execution
-- ended.
pub run_entry-executing :
    (others : Dispatcher → Dispatcher) (entry : JobEntry) (d : Dispatcher)
    → is_cancelled entry.job.id d ≡ false
    → contains text_discrete entry.job.id (run_entry others entry d).executing ≡ false
run_entry-executing others entry d h =
    let d' =
      dispatch (lookup text_discrete entry.job.name d.handlers) others entry (started entry d) in
    rw (run_entry_live others entry d h, clean_up-executing entry.job d')
      (ground (arith, contains-discard text_discrete entry.job.id entry.job.id d'.executing))
