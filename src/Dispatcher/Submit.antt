-- ===== src/Dispatcher/Submit.antt =====
-- internal/core/dispatcher.go: submission.
pub mod Frame
pub mod Settles
pub mod Rollback
pub mod Refused
pub mod Accepted
pub mod Queues
pub mod Served
use jobx.Prelude.{
  Bool, true, false, not, List, [], ◌∷◌, ◌++◌, Option, none, some, length, ltb, if◌then◌else◌,
}
use jobx.Prelude.Maps.{lookup, insert}
use jobx.Text.{Text, text_discrete}
use jobx.Clock.{Time, Duration, is_negative, is_zero, is_after, add_duration}
use jobx.Errors.{
  Result, ok, err, wrap_code, id_generate_failed, err_job_invalid, err_handler_not_found,
  err_skipped, err_shutting_down,
}
use jobx.Logs.{LogEntry}
use jobx.Job.{Job, JobEntry, JobSpec, empty_spec, SubmitOption, apply_options, with_run_at}
use jobx.Options.{QueueFullPolicy, queue_full_block, queue_full_drop}
use jobx.ReadyQueue.{Wake, PushResult, pushed, failed, blocked}
use jobx.ReadyQueue
use jobx.Status
use jobx.InFlight.{Claim, claimed, taken, claim}
use jobx.Metrics.{MetricEvent, Delta}
use jobx.Dispatcher.State.{
  Dispatcher, Handler, Meanwhile, Call, Reply, returns, fails, blocks, ◌>>=◌, ◌>>◌, return, update,
  fail_if, check, lift, on_error,
}
use jobx.Dispatcher.Steps.{
  read_clock, new_job_id, validate_name, mark_status, metric, log, release_job, persist,
  delete_stored, push_delayed, get_ready, put_ready,
}
use jobx.Dispatcher.Cancel.{cancel_by_id}

-- The error of an id that could not be made.
abbrev pub id_or_error : Result Text → Result Text
id_or_error (ok id) = ok id
id_or_error (err e) = err (wrap_code e id_generate_failed)

abbrev pub find_handler : Option Handler → Result Handler
find_handler none = err err_handler_not_found
find_handler (some h) = ok h

-- `buildEntry`.
unfoldable pub build_entry : Text → Text → JobSpec → Call JobEntry
build_entry name payload spec d =
    (do
      check (validate_name d.env name)
      fail_if (ltb d.cfg.max_payload (length payload)) err_job_invalid
      _ ← lift (find_handler (lookup text_discrete name d.handlers))
      read ← new_job_id
      id ← lift (id_or_error read)
      created ← read_clock
      return (record {
        job = record {
          id = id;
          name = name;
          payload = payload;
          created_at = created;
          run_at = spec.run_at;
          max_retries = spec.max_retries;
          retry_delay = spec.retry_delay;
          timeout = spec.timeout;
          attempt = 0;
        };
      }))
      d

-- The loop over `replaced`.
unfoldable pub cancel_all : List Text → Dispatcher → Dispatcher
cancel_all [] d = d
cancel_all (id ∷ ids) d = cancel_all ids (cancel_by_id id d)

-- The metric and the log that follow the loop.
unfoldable pub note_replaced : List Text → Job → Dispatcher → Dispatcher
note_replaced [] job d = d
note_replaced (_ ∷ _) job d = log (LogEntry.replaced job) (metric (MetricEvent.replaced job.name) d)

unfoldable pub apply_claim : Claim → JobEntry → Call (Unit {0})
unfolding note_replaced
apply_claim taken entry d = (
  fails err_skipped,
  log (LogEntry.skipped entry.job) (metric (MetricEvent.skipped entry.job.name) d),
)
apply_claim (claimed m replaced) entry d = (
  returns tt,
  note_replaced replaced entry.job (cancel_all replaced (record d { in_flight = m })),
)

-- `applyConflict`. Under the allow policy nothing is claimed and nothing changes.
unfoldable pub apply_conflict : JobEntry → Call (Unit {0})
apply_conflict entry d =
    apply_claim (claim d.cfg.conflict entry.job.name entry.job.id d.in_flight) entry d

abbrev pub drops : QueueFullPolicy → Bool
drops queue_full_block = false
drops queue_full_drop = true

-- What `enqueueReady` makes of the result of `push`.
unfoldable pub enqueued :
    QueueFullPolicy → Text → Dispatcher × PushResult → Reply (Unit {0}) × Dispatcher
enqueued policy name (d, pushed) = (returns tt, d)
enqueued policy name (d, blocked) = (blocks, d)
enqueued queue_full_drop name (d, failed e) = (fails e, metric (MetricEvent.dropped name) d)
enqueued queue_full_block name (d, failed e) = (fails e, d)

-- `enqueueReady`, where the wakes say what happens while `push` waits.
unfoldable pub enqueue_ready : List (Wake Dispatcher) → JobEntry → Call (Unit {0})
enqueue_ready wakes entry d =
    enqueued d.cfg.queue_policy entry.job.name
      (ReadyQueue.push get_ready put_ready wakes d entry (drops d.cfg.queue_policy))

-- `d.releaseJob(entry.job.Name, entry.job.ID)`.
abbrev pub release_entry : JobEntry → Dispatcher → Dispatcher
release_entry entry = release_job entry.job.name entry.job.id

-- The part of `SubmitWithOptions` for a job that is due, from its end to its beginning.
unfoldable pub note_submitted : Meanwhile → JobEntry → Call Text
note_submitted meanwhile entry = do
  update meanwhile.after_push
  update (mark_status entry.job.id Status.queued)
  update meanwhile.after_mark
  update (metric (MetricEvent.queued entry.job.name Delta.plus_one))
  update (log (LogEntry.submitted entry.job))
  return entry.job.id

-- What follows when the push is refused.
abbrev pub withdraw : JobEntry → Dispatcher → Dispatcher
withdraw entry d = release_entry entry (delete_stored entry.job.id d)

unfoldable pub enqueue_persisted : Meanwhile → JobEntry → Call Text
enqueue_persisted meanwhile entry = do
  on_error (withdraw entry) (enqueue_ready meanwhile.wakes entry)
  note_submitted meanwhile entry

unfoldable pub submit_ready : Meanwhile → JobEntry → Call Text
submit_ready meanwhile entry = do
  on_error (release_entry entry) (persist entry.job)
  enqueue_persisted meanwhile entry

-- The part of `SubmitWithOptions` for a job that is to run later.
unfoldable pub delay_persisted : Meanwhile → JobEntry → Call Text
delay_persisted meanwhile entry = do
  update (push_delayed entry)
  update meanwhile.after_push
  update (mark_status entry.job.id Status.delayed)
  update meanwhile.after_mark
  update (log (LogEntry.submitted entry.job))
  return entry.job.id

unfoldable pub submit_delayed : Meanwhile → JobEntry → Call Text
submit_delayed meanwhile entry = do
  on_error (release_entry entry) (persist entry.job)
  delay_persisted meanwhile entry

-- `spec.runAt.IsZero() || !spec.runAt.After(d.cfg.now())`; the clock is read if it is needed.
abbrev pub is_due : Time → Call Bool
is_due run_at =
    if is_zero run_at
    then return true
    else (do now ← read_clock; return (not (is_after run_at now)))

abbrev pub submit_when : Bool → Meanwhile → JobEntry → Call Text
submit_when true meanwhile entry = submit_ready meanwhile entry
submit_when false meanwhile entry = submit_delayed meanwhile entry

unfoldable pub submit_entry : Meanwhile → JobEntry → Call Text
submit_entry meanwhile entry = do due ← is_due entry.job.run_at; submit_when due meanwhile entry

-- The part of `SubmitWithOptions` after `applyConflict`.
unfoldable pub submit_claimed : Meanwhile → JobEntry → Call Text
submit_claimed meanwhile entry d =
    let d₁ = record d {
      job_names = insert text_discrete entry.job.id entry.job.name d.job_names;
    } in
    if d₁.running
    then submit_entry meanwhile entry d₁
    else (fails err_shutting_down, release_entry entry d₁)

-- `SubmitWithOptions`; `Submit` is the same.
unfoldable pub submit_with_options : Meanwhile → Text → Text → List SubmitOption → Call Text
submit_with_options meanwhile name payload opts = do
  spec ← lift (apply_options opts empty_spec)
  entry ← build_entry name payload spec
  apply_conflict entry
  submit_claimed meanwhile entry

-- `SubmitAt`.
unfoldable pub submit_at : Meanwhile → Text → Text → Time → List SubmitOption → Call Text
submit_at meanwhile name payload at opts =
    submit_with_options meanwhile name payload (opts ++ with_run_at at ∷ [])

-- `SubmitAfter`.
unfoldable pub submit_after : Meanwhile → Text → Text → Duration → List SubmitOption → Call Text
submit_after meanwhile name payload delay opts = do
  fail_if (is_negative delay) err_job_invalid
  now ← read_clock
  submit_with_options meanwhile name payload (opts ++ with_run_at (add_duration now delay) ∷ [])
