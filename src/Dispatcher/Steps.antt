-- ===== src/Dispatcher/Steps.antt =====
-- internal/core/dispatcher.go: the small operations, which the others are made of.
use mathlib.Core.Option
use jobx.Prelude.{
  ℕ, suc, Bool, true, ◌∷◌, Option, none, some, length, ltb, if◌then◌else◌, ◌||◌, ◌==◌,
}
use jobx.Prelude.Maps.{delete, contains}
use jobx.Text.{Text, text_discrete}
use jobx.Clock.{Time}
use jobx.Errors.{Error, Result, err_job_invalid, wrap_code, store_invalid}
use jobx.Job.{Job, JobEntry}
use jobx.Options.{Store, saves, deletes}
use jobx.ReadyQueue.{ReadyQueue}
use jobx.Heap
use jobx.Status.{Status}
use jobx.Status
use jobx.InFlight.{release_in_flight}
use jobx.Metrics.{MetricEvent}
use jobx.Logs.{LogEntry}
use jobx.Dispatcher.State.{Dispatcher, Env, Call, returns, check}

-- The order of `delayHeap`.
abbrev pub run_key : JobEntry → Time
run_key e = e.job.run_at

-- `d.cfg.now()`.
abbrev pub read_clock : Call Time
read_clock d = (returns (d.cfg.now d.clock_reads), record d { clock_reads = suc d.clock_reads })

-- `newJobID`.
abbrev pub new_job_id : Call (Result Text)
new_job_id d =
    (returns (d.env.random_hex d.random_reads), record d { random_reads = suc d.random_reads })

abbrev pub max_name_length : ℕ
max_name_length = 128

-- The rule `jobx_task_name`.
unfoldable pub task_name_rule : Text → Option Error
task_name_rule name =
    if length name == 0 || ltb max_name_length (length name) then some err_job_invalid else none

unfoldable pub validate_name : Env → Text → Option Error
validate_name env name = env.validate_field task_name_rule name

unfoldable pub mark_status : Text → Status → Dispatcher → Dispatcher
mark_status id s d = record d { table = Status.mark_status id s d.table }

-- A call of one of the `metric…` methods.
unfoldable pub metric : MetricEvent → Dispatcher → Dispatcher
metric e d = record d { events = e ∷ d.events }

-- A call of one of the `log…` methods.
abbrev pub log : LogEntry → Dispatcher → Dispatcher
log e d = record d { logs = e ∷ d.logs }

unfoldable pub release_job : Text → Text → Dispatcher → Dispatcher
release_job name id d = record d {
  in_flight = release_in_flight d.cfg.conflict name id d.in_flight;
  job_names = delete text_discrete id d.job_names;
}

persist_in : Option Store → Job → Call (Unit {0})
persist_in none job d = (returns tt, d)
persist_in (some store) job d =
    check (Option.map (λ e. wrap_code e store_invalid) (store.save d.store_calls job))
      (record d { store_calls = saves job ∷ d.store_calls })

unfoldable pub persist : Job → Call (Unit {0})
unfolding persist_in
persist job d = persist_in d.cfg.store job d

delete_in : Option Store → Text → Dispatcher → Dispatcher
delete_in none id d = d
delete_in (some store) id d = record d { store_calls = deletes id ∷ d.store_calls }

-- `if d.cfg.store != nil { _ = d.cfg.store.Delete(…) }`.
unfoldable pub delete_stored : Text → Dispatcher → Dispatcher
unfolding delete_in
delete_stored id d = delete_in d.cfg.store id d

-- `pushDelayed`.
unfoldable pub push_delayed : JobEntry → Dispatcher → Dispatcher
push_delayed entry d = record d { delay_heap = Heap.push run_key d.delay_heap entry; signal = true }

unfoldable pub is_cancelled : Text → Dispatcher → Bool
is_cancelled id d = contains text_discrete id d.cancelled

-- The queue in the dispatcher, for `push` and `pop`.
abbrev pub get_ready : Dispatcher → ReadyQueue
get_ready d = d.ready

abbrev pub put_ready : ReadyQueue → Dispatcher → Dispatcher
put_ready q d = record d { ready = q }
