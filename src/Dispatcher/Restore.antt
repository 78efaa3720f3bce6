-- ===== src/Dispatcher/Restore.antt =====
-- internal/core/dispatcher.go: `Restore`.
pub mod Later
pub mod Stranded
use jobx.Prelude.{ℕ, suc, Bool, true, false, List, [], ◌∷◌, Option, none, some, if◌then◌else◌}
use jobx.Prelude.Maps.{lookup, insert}
use jobx.Text.{text_discrete}
use jobx.Clock.{is_after}
use jobx.Errors.{Error, Result, ok, err, wrap_code, store_invalid}
use jobx.Job.{Job, JobEntry}
use jobx.Logs.{LogEntry}
use jobx.Options.{Store}
use jobx.ReadyQueue.{Wake, PushResult, pushed, failed, blocked}
use jobx.ReadyQueue
use jobx.Status
use jobx.InFlight.{restore_in_flight}
use jobx.Metrics.{MetricEvent, Delta}
use jobx.Dispatcher.State.{
  Dispatcher, Handler, Meanwhile, alone, Call, Reply, returns, fails, blocks, ◌>>=◌, ◌>>◌, return,
  update,
}
use jobx.Dispatcher.Steps.{
  read_clock, mark_status, metric, log, delete_stored, push_delayed, get_ready, put_ready,
}

-- What `Restore` makes of the result of `push`.
restored : Dispatcher × PushResult → Reply (Unit {0}) × Dispatcher
restored (d, pushed) = (returns tt, d)
restored (d, failed e) = (fails e, d)
restored (d, blocked) = (blocks, d)

restore_delayed : JobEntry → Call (Unit {0})
restore_delayed entry = do
  update (push_delayed entry)
  update (mark_status entry.job.id Status.delayed)

restore_ready : Meanwhile → JobEntry → Call (Unit {0})
unfolding restored
restore_ready meanwhile entry = do
  λ d. restored (ReadyQueue.push get_ready put_ready meanwhile.wakes d entry false)
  update meanwhile.after_push
  update (mark_status entry.job.id Status.queued)
  update (metric (MetricEvent.queued entry.job.name Delta.plus_one))

unfoldable pub restore_entry : Meanwhile → JobEntry → Call (Unit {0})
unfolding restore_delayed restore_ready
restore_entry meanwhile entry = do
  now ← read_clock
  if is_after entry.job.run_at now then restore_delayed entry else restore_ready meanwhile entry

-- `d.jobNames.Store` and `d.addInFlightForRestore`.
abbrev pub register_restored : Job → Dispatcher → Dispatcher
register_restored job d = record d {
  job_names = insert text_discrete job.id job.name d.job_names;
  in_flight = restore_in_flight d.cfg.conflict job.name job.id d.in_flight;
}

restore_found : Option Handler → Meanwhile → Job → Call Bool
unfolding restore_entry
restore_found none meanwhile job = do
  update (delete_stored job.id)
  update (log (LogEntry.handler_missing job))
  return false
restore_found (some h) meanwhile job = do
  update (register_restored job)
  restore_entry meanwhile (record { job = job })
  return true

-- A round of the loop over the stored jobs: whether the job was restored.
unfoldable pub restore_job : Meanwhile → Job → Call Bool
unfolding restore_found
restore_job meanwhile job d =
    restore_found (lookup text_discrete job.name d.handlers) meanwhile job d

abbrev pub count : Bool → ℕ → ℕ
count true n = suc n
count false n = n

-- An error of `push` ends the loop, with the number restored so far.
counted :
    Reply Bool × Dispatcher
    → ℕ
    → (ℕ → Call (ℕ × Option Error))
    → Reply (ℕ × Option Error) × Dispatcher
counted (returns done, d) n rest = rest (count done n) d
counted (fails e, d) n rest = (returns (n, some e), d)
counted (blocks, d) n rest = (blocks, d)

-- The loop over the jobs.
unfoldable pub restore_jobs : List (Meanwhile × Job) → ℕ → Call (ℕ × Option Error)
unfolding counted
restore_jobs [] n d = (returns (n, none), d)
restore_jobs ((meanwhile, job) ∷ jobs) n d =
    counted (restore_job meanwhile job d) n (restore_jobs jobs)

-- What the others do meanwhile, for each job; nothing where the list ends.
abbrev pub with_meanwhile : List Meanwhile → List Job → List (Meanwhile × Job)
with_meanwhile meanwhile [] = []
with_meanwhile [] (job ∷ jobs) = (alone, job) ∷ with_meanwhile [] jobs
with_meanwhile (m ∷ meanwhile) (job ∷ jobs) = (m, job) ∷ with_meanwhile meanwhile jobs

restore_listed : Result (List Job) → List Meanwhile → Call (ℕ × Option Error)
restore_listed (err e) meanwhile d = (returns (0, some (wrap_code e store_invalid)), d)
restore_listed (ok jobs) meanwhile d = restore_jobs (with_meanwhile meanwhile jobs) 0 d

restore_from : Option Store → List Meanwhile → Call (ℕ × Option Error)
unfolding restore_listed
restore_from none meanwhile d = (returns (0, none), d)
restore_from (some store) meanwhile d = restore_listed (store.list d.store_calls) meanwhile d

-- `Restore`: the number of restored jobs, and its error.
unfoldable pub restore : List Meanwhile → Call (ℕ × Option Error)
unfolding restore_from
restore meanwhile d = restore_from d.cfg.store meanwhile d
