-- ===== src/Dispatcher/Pool.antt =====
-- internal/core/dispatcher.go and internal/core/worker.go: the dispatcher with its workers, the calls
-- that hold an entry on its way, and every other call, interleaved in any order. `Restore`, which its
-- documentation places after a restart, is left out: the ids that it brings back are those of an earlier
-- random source.
pub mod Counts
pub mod Adds
pub mod Keeps
pub mod Once
pub mod Marks
pub mod Gauge
pub mod Bounds
pub mod Paths
pub mod Submits
pub mod Works
pub mod Delays
use jobx.Prelude.{
  ℕ, zero, suc, ◌≤◌, ◌≡◌, Bool, true, false, List, [], ◌∷◌, ◌++◌, Option, none, some, ite,
}
use jobx.Text.{Text, text_discrete}
use jobx.Clock.{Time}
use jobx.Errors.{
  Error, new_code, job_cancelled, wrap_code, err_handler_not_found, handler_not_found,
}
use jobx.Job.{JobEntry, JobSpec}
use jobx.Logs.{LogEntry}
use jobx.Options.{Config}
use jobx.ReadyQueue.{ReadyQueue, push_round, added, pop_round, popped, ended}
use jobx.Status
use jobx.Metrics.{MetricEvent, Delta}
use jobx.Dispatcher.State.{Dispatcher, Env, Reply, returns, fails, blocks}
use jobx.Dispatcher.Steps.{
  mark_status, metric, log, release_job, is_cancelled, put_ready, push_delayed,
}
use jobx.Dispatcher.Submit.{build_entry}
use jobx.Dispatcher.Cancel.{cancel_by_id}
use jobx.Dispatcher.Delay.{take_delayed}
use jobx.Dispatcher.Run.{begin_run, conclude, clean_up}
use jobx.Dispatcher.Lifecycle.{fresh_dispatcher}

-- Where a worker stands: before `pop`; with an entry that it has popped; after the check of `runEntry`
-- that its job is not cancelled; in the body of `runEntry`; after the check, which follows the handler,
-- that the job is not cancelled; before the deferred function of `runEntry`; after its loop.
pub data Worker : Type 0 where
  free : Worker
  holds : JobEntry → Worker
  checked : JobEntry → Worker
  runs : JobEntry → Worker
  uncancelled : JobEntry → Worker
  cleans : JobEntry → Worker
  gone : Worker

-- The dispatcher, the entries that a call has built or taken off the delay heap and not placed yet, and
-- the workers.
pub record Pool : Type 0 where
  pub disp : Dispatcher
  pub held : List JobEntry
  pub workers : List Worker

-- How often `runEntry` has reported a job of the name as running, and as running no more.
unfoldable pub begun : Text → List MetricEvent → ℕ
begun name [] = 0
begun name (MetricEvent.running n Delta.plus_one ∷ events) =
    ite (text_discrete n name) (suc (begun name events)) (begun name events)
begun name (_ ∷ events) = begun name events

unfoldable pub finished : Text → List MetricEvent → ℕ
finished name [] = 0
finished name (MetricEvent.running n Delta.minus_one ∷ events) =
    ite (text_discrete n name) (suc (finished name events)) (finished name events)
finished name (_ ∷ events) = finished name events

-- What a change leaves alone that moves no entry, makes no room, cancels no job and begins and ends no run.
pub record Quiet (d d' : Dispatcher) : Type 0 where
  pub env : d'.env ≡ d.env
  pub random_reads : d.random_reads ≤ d'.random_reads
  pub items : d'.ready.items ≡ d.ready.items
  pub capacity : d'.ready.capacity ≡ d.ready.capacity
  pub delay_heap : d'.delay_heap ≡ d.delay_heap
  pub cancelled : d'.cancelled ≡ d.cancelled
  pub begun_same : (name : Text) → begun name d'.events ≡ begun name d.events
  pub finished_same : (name : Text) → finished name d'.events ≡ finished name d.events

-- The entry that `buildEntry` returns, if it does.
abbrev pub made : Reply JobEntry → List JobEntry
made (returns e) = e ∷ []
made (fails e) = []
made blocks = []

-- `d.metricQueued(job.Name, -1)`, with which `runEntry` begins.
abbrev pub note_taken : JobEntry → Dispatcher → Dispatcher
note_taken entry d = metric (MetricEvent.queued entry.job.name Delta.minus_one) d

-- The end of the body of `runEntry` without a handler.
abbrev pub miss : JobEntry → Dispatcher → Dispatcher
miss entry d = log (LogEntry.failed entry.job err_handler_not_found) (
    metric (MetricEvent.failed entry.job.name (wrap_code err_handler_not_found handler_not_found))
      (mark_status entry.job.id Status.failed d))

-- The steps that goroutines take one at a time. Those of a worker have the workers before and after
-- it; those that place an entry have the other entries on their way.
pub data Move (y : Pool) : Pool → Type 0 where
  others : (d : Dispatcher) → Quiet y.disp d → Move y (record y { disp = d })
  -- `buildEntry`.
  builds :
      (name payload : Text) (spec : JobSpec)
      → Move y (record y {
        disp = (build_entry name payload spec y.disp).1;
        held = made (build_entry name payload spec y.disp).0 ++ y.held;
      })
  -- The section of `push` that appends.
  queues :
      (ks ls : List JobEntry) (e : JobEntry) (drop : Bool) (q : ReadyQueue)
      → y.held ≡ ks ++ (e ∷ ls)
      → push_round y.disp.ready e drop ≡ added q
      → Move y (record y { disp = put_ready q y.disp; held = ks ++ ls })
  -- `pushDelayed`.
  delays :
      (ks ls : List JobEntry) (e : JobEntry)
      → y.held ≡ ks ++ (e ∷ ls)
      → Move y (record y { disp = push_delayed e y.disp; held = ks ++ ls })
  -- A refused push, a failed save, a job that is cancelled or dropped on its way.
  drops :
      (ks ls : List JobEntry) (e : JobEntry)
      → y.held ≡ ks ++ (e ∷ ls)
      → Move y (record y { held = ks ++ ls })
  -- `heap.Pop` in `popDue` and in `drainDelayed`.
  takes :
      (e : JobEntry) (d : Dispatcher)
      → take_delayed y.disp ≡ (some e, d)
      → Move y (record y { disp = d; held = e ∷ y.held })
  -- `cancelByIDLocked`.
  cancels : (id : Text) → Move y (record y { disp = cancel_by_id id y.disp })
  -- The section of `pop` that takes an entry, and the one that ends the worker.
  pops :
      (ws vs : List Worker) (e : JobEntry) (q : ReadyQueue)
      → y.workers ≡ ws ++ (free ∷ vs)
      → pop_round y.disp.ready ≡ popped e q
      → Move y (record y { disp = put_ready q y.disp; workers = ws ++ (holds e ∷ vs) })
  stops :
      (ws vs : List Worker)
      → y.workers ≡ ws ++ (free ∷ vs)
      → pop_round y.disp.ready ≡ ended
      → Move y (record y { workers = ws ++ (gone ∷ vs) })
  -- `runEntry` finds the job cancelled, or not; then it begins. Others may cancel the job in between.
  skips :
      (ws vs : List Worker) (e : JobEntry)
      → y.workers ≡ ws ++ (holds e ∷ vs)
      → is_cancelled e.job.id y.disp ≡ true
      → Move y (record y {
        disp =
            release_job e.job.name e.job.id
              (mark_status e.job.id Status.cancelled (note_taken e y.disp));
        workers = ws ++ (free ∷ vs);
      })
  checks :
      (ws vs : List Worker) (e : JobEntry)
      → y.workers ≡ ws ++ (holds e ∷ vs)
      → is_cancelled e.job.id y.disp ≡ false
      → Move y (record y { disp = note_taken e y.disp; workers = ws ++ (checked e ∷ vs) })
  begins :
      (ws vs : List Worker) (e : JobEntry)
      → y.workers ≡ ws ++ (checked e ∷ vs)
      → Move y (record y { disp = begin_run e.job y.disp; workers = ws ++ (runs e ∷ vs) })
  -- The body of `runEntry` ends: without a handler, for a job that was cancelled meanwhile, or, once it
  -- was found not to be cancelled, with the result of the handler.
  misses :
      (ws vs : List Worker) (e : JobEntry)
      → y.workers ≡ ws ++ (runs e ∷ vs)
      → Move y (record y { disp = miss e y.disp; workers = ws ++ (cleans e ∷ vs) })
  abandons :
      (ws vs : List Worker) (e : JobEntry)
      → y.workers ≡ ws ++ (runs e ∷ vs)
      → is_cancelled e.job.id y.disp ≡ true
      → Move y (record y {
        disp =
            log
              (LogEntry.failed e.job (new_code job_cancelled))
              (mark_status e.job.id Status.cancelled y.disp);
        workers = ws ++ (cleans e ∷ vs);
      })
  rechecks :
      (ws vs : List Worker) (e : JobEntry)
      → y.workers ≡ ws ++ (runs e ∷ vs)
      → is_cancelled e.job.id y.disp ≡ false
      → Move y (record y { workers = ws ++ (uncancelled e ∷ vs) })
  concludes :
      (ws vs : List Worker) (e : JobEntry) (result : Option Error) (start : Time)
      → y.workers ≡ ws ++ (uncancelled e ∷ vs)
      → Move y (record y { disp = conclude result start e y.disp; workers = ws ++ (cleans e ∷ vs) })
  -- The deferred function.
  cleans_up :
      (ws vs : List Worker) (e : JobEntry)
      → y.workers ≡ ws ++ (cleans e ∷ vs)
      → Move y (record y { disp = clean_up e.job y.disp; workers = ws ++ (free ∷ vs) })

-- Runs of steps from one state to another.
pub data Reach (y : Pool) : Pool → Type 0 where
  here : Reach y y
  later : {z x : Pool} → Reach y z → Move z x → Reach y x

abbrev pub free_workers : ℕ → List Worker
free_workers zero = []
free_workers (suc n) = free ∷ free_workers n

-- What `NewDispatcher` starts.
abbrev pub start : Env → Config → Pool
start env cfg = record {
  disp = fresh_dispatcher env cfg;
  held = [];
  workers = free_workers cfg.workers;
}
