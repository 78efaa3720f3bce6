-- ===== src/Dispatcher/Run.antt =====
-- internal/core/worker.go: a worker executes a job.
pub mod Ends
pub mod Retry
pub mod Traces
use jobx.Prelude.{
  suc, Bool, true, false, not, ◌&&◌, List, ◌∷◌, Option, none, some, ltb, if◌then◌else◌,
}
use jobx.Prelude.Maps.{lookup, add, discard}
use jobx.Text.{text_discrete}
use jobx.Clock.{Time, is_negative, add_duration, shift_left, sub_time}
use jobx.Errors.{
  Error, new_code, job_cancelled, wrap_code, foreign, execution_failed, err_handler_not_found,
  handler_not_found,
}
use jobx.Job.{Job, JobEntry}
use jobx.ReadyQueue.{PopResult, got, stopped, idle}
use jobx.ReadyQueue
use jobx.Logs.{LogEntry, Span}
use jobx.Options.{Store, saves}
use jobx.Status
use jobx.Metrics.{MetricEvent, Delta}
use jobx.Dispatcher.State.{
  Dispatcher, Handler, Outcome, returned, panicked, Call, Reply, returns, blocks,
}
use jobx.Dispatcher.Steps.{
  mark_status, metric, log, release_job, delete_stored, is_cancelled, get_ready, put_ready,
  push_delayed,
}

-- The clock's reading, and the clock read once more.
abbrev pub clock_now : Dispatcher → Time
clock_now d = d.cfg.now d.clock_reads

abbrev pub clock_read : Dispatcher → Dispatcher
clock_read d = record d { clock_reads = suc d.clock_reads }

-- `d.cfg.store.Save(…)`, if there is a store; its answer is dropped.
save_in : Option Store → Job → Dispatcher → Dispatcher
save_in none job d = d
save_in (some store) job d = record d { store_calls = saves job ∷ d.store_calls }

unfoldable pub save_stored : Job → Dispatcher → Dispatcher
unfolding save_in
save_stored job d = save_in d.cfg.store job d

-- The entry that `scheduleRetry` puts on the heap, by the clock's reading.
unfoldable pub retry_entry : JobEntry → Time → JobEntry
retry_entry entry now = record {
  job = record entry.job {
    attempt = suc entry.job.attempt;
    run_at = add_duration now (shift_left entry.job.retry_delay entry.job.attempt);
  };
}

-- `scheduleRetry`.
unfoldable pub schedule_retry : Error → JobEntry → Dispatcher → Dispatcher
unfolding retry_entry
schedule_retry cause entry d =
    let next = retry_entry entry (clock_now d) in
    let d₁ = save_stored next.job (clock_read d) in
    let d₂ = mark_status next.job.id Status.delayed (push_delayed next d₁) in
    log (LogEntry.retrying entry.job next.job.run_at cause)
      (metric (MetricEvent.retried entry.job.name next.job.attempt) d₂)

-- The deferred function of `runEntry`.
unfoldable pub clean_up : Job → Dispatcher → Dispatcher
clean_up job d =
    let d₁ = record d { executing = discard text_discrete job.id d.executing } in
    delete_stored job.id
      (release_job job.name job.id (metric (MetricEvent.running job.name Delta.minus_one) d₁))

-- The error of an execution: a panic is recovered and wrapped.
abbrev pub outcome_error : Outcome → Option Error
outcome_error (returned e) = e
outcome_error (panicked value) = some (wrap_code (foreign value) execution_failed)

-- `job.MaxRetries > 0 && job.Attempt < job.MaxRetries`.
abbrev pub may_retry : Job → Bool
may_retry job =
    ltb 0 job.max_retries && not (is_negative job.max_retries) && ltb job.attempt job.max_retries

-- The end of `runEntry` for a job that was not cancelled, by the error of its execution and the
-- start time.
unfoldable pub conclude : Option Error → Time → JobEntry → Dispatcher → Dispatcher
conclude (some e) start entry d =
    if may_retry entry.job
    then schedule_retry e entry d
    else log (LogEntry.failed entry.job e)
        (metric (MetricEvent.failed entry.job.name e) (mark_status entry.job.id Status.failed d))
conclude none start entry d =
    let d₁ = mark_status entry.job.id Status.succeeded d in
    let duration = sub_time (clock_now d₁) start in
    let d₂ = metric (MetricEvent.completed entry.job.name duration) (clock_read d₁) in
    log (LogEntry.completed entry.job (sub_time (clock_now d₂) start)) (clock_read d₂)

-- `logStart`, and `traceStart` if there is a hook, after the clock was read.
abbrev pub hand_over : Job → Dispatcher → Dispatcher
hand_over job d =
    let d₁ = log (LogEntry.started job) (clock_read d) in
    record d₁ { spans = if d.cfg.trace_hook then Span.opens job ∷ d₁.spans else d₁.spans }

-- What follows the handler: `end` gets its error, which a panic passes over; a panic is logged.
abbrev pub close_span : Outcome → List Span → List Span
close_span (returned e) l = Span.closes e ∷ l
close_span (panicked value) l = l

abbrev pub log_panic : Outcome → Job → List LogEntry → List LogEntry
log_panic (returned e) job l = l
log_panic (panicked value) job l = LogEntry.panicked job value ∷ l

abbrev pub end_handler : Outcome → Job → Dispatcher → Dispatcher
end_handler o job d = record d {
  spans = if d.cfg.trace_hook then close_span o d.spans else d.spans;
  logs = log_panic o job d.logs;
}

-- `runEntry` once the handler is found; `others` is what the handler and the other goroutines do
-- to the dispatcher while it runs. What follows the handler leaves the marks alone, which are read then.
unfoldable pub execute : (Dispatcher → Dispatcher) → Handler → JobEntry → Dispatcher → Dispatcher
execute others h entry d =
    let start = clock_now d in
    let d₁ = others (hand_over entry.job d) in
    let d₂ = end_handler (h entry.job) entry.job d₁ in
    if is_cancelled entry.job.id d₁
    then log (LogEntry.failed entry.job (new_code job_cancelled))
        (mark_status entry.job.id Status.cancelled d₂)
    else conclude (outcome_error (h entry.job)) start entry d₂

-- The body of `runEntry` between the registration of the cancel function and the deferred function.
unfoldable pub dispatch :
    Option Handler → (Dispatcher → Dispatcher) → JobEntry → Dispatcher → Dispatcher
dispatch none others entry d = log (LogEntry.failed entry.job err_handler_not_found) (
    metric (MetricEvent.failed entry.job.name (wrap_code err_handler_not_found handler_not_found))
      (mark_status entry.job.id Status.failed d))
dispatch (some h) others entry d = execute others h entry d

-- What `runEntry` does before it looks the handler up.
unfoldable pub begin_run : Job → Dispatcher → Dispatcher
begin_run job d =
    let d₁ =
      metric (MetricEvent.running job.name Delta.plus_one) (mark_status job.id Status.running d) in
    record d₁ { executing = add text_discrete job.id d₁.executing }

-- `runEntry`.
unfoldable pub run_entry : (Dispatcher → Dispatcher) → JobEntry → Dispatcher → Dispatcher
run_entry others entry d =
    let job = entry.job in
    let d₁ = metric (MetricEvent.queued job.name Delta.minus_one) d in
    if is_cancelled job.id d₁
    then release_job job.name job.id (mark_status job.id Status.cancelled d₁)
    else let d₂ = begin_run job d₁ in
      clean_up job (dispatch (lookup text_discrete job.name d₂.handlers) others entry d₂)

unfoldable pub worked : (Dispatcher → Dispatcher) → Dispatcher × PopResult → Reply Bool × Dispatcher
worked others (d, got entry) = (returns true, run_entry others entry d)
worked others (d, stopped) = (returns false, d)
worked others (d, idle) = (blocks, d)

-- A round of `worker`: whether it goes on.
unfoldable pub worker_round : List (Dispatcher → Dispatcher) → (Dispatcher → Dispatcher) → Call Bool
unfolding worked
worker_round wakes others d = worked others (ReadyQueue.pop get_ready put_ready wakes d)
