-- ===== src/Dispatcher/Lifecycle.antt =====
-- internal/core/dispatcher.go: construction, registration of handlers, `JobStatus` and `Shutdown`.
pub mod Shutdown
pub mod Handlers
pub mod Configured
use jobx.Prelude.{ℕ, true, false, List, [], ◌∷◌, ◌++◌, length, Option, none, some}
use jobx.Prelude.Maps.{lookup, insert}
use jobx.Text.{Text, text_discrete}
use jobx.Clock.{Time}
use jobx.Errors.{Error, Result, ok, ◌>>=◌ as then_ok, err_job_invalid, err_handler_conflict}
use jobx.Options.{Config, ConfigOption, default_config, configure}
use jobx.ReadyQueue.{new_ready_queue, close}
use jobx.Logs.{normalize_logger, LogEntry}
use jobx.Status.{Status, empty_table}
use jobx.Status
use jobx.Dispatcher.State.{Dispatcher, Env, Handler, Call, returns, fails, ◌>>◌, check, lift}
use jobx.Dispatcher.Steps.{validate_name}

-- The dispatcher that `NewDispatcher` builds; its goroutines are `worker_round` and `delay_round`.
unfoldable pub fresh_dispatcher : Env → Config → Dispatcher
fresh_dispatcher env cfg = record {
  env = env;
  cfg = cfg;
  handlers = [];
  ready = new_ready_queue cfg.queue_size;
  stopped = false;
  signal = false;
  shutdown_result = none;
  running = true;
  executing = [];
  cancelled = [];
  table = empty_table;
  in_flight = [];
  job_names = [];
  delay_heap = [];
  events = [];
  store_calls = [];
  logs = [];
  spans = [];
  context_cancels = [];
  clock_reads = 0;
  random_reads = 0;
}

-- `NewDispatcher`; `wall` is `time.Now`.
unfoldable pub new_dispatcher : Env → (ℕ → Time) → List ConfigOption → Result Dispatcher
unfolding fresh_dispatcher normalize_logger
new_dispatcher env wall opts =
    then_ok (configure opts (default_config wall))
      (λ cfg. ok (fresh_dispatcher env (record cfg { logger = normalize_logger cfg.logger })))

-- `LoadOrStore` of a handler.
store_handler : Option Handler → Text → Handler → Call (Unit {0})
store_handler (some old) name h d = (fails err_handler_conflict, d)
store_handler none name h d =
    (returns tt, record d { handlers = insert text_discrete name h d.handlers })

-- A nil handler is `none`.
handle_valid : Option Handler → Text → Call (Unit {0})
unfolding store_handler
handle_valid none name d = (fails err_job_invalid, d)
handle_valid (some h) name d = store_handler (lookup text_discrete name d.handlers) name h d

-- `Handle`.
unfoldable pub handle : Text → Option Handler → Call (Unit {0})
unfolding handle_valid
handle name h d = (do check (validate_name d.env name); handle_valid h name) d

-- `JobStatus`.
unfoldable pub job_status : Text → Call Status
job_status id d = lift (Status.job_status id d.table) d

-- How `waitWorkers` ends: the others finish, or the context ends first.
pub data WaitEnd : Type 0 where
  all_done : (Dispatcher → Dispatcher) → WaitEnd
  gave_up : (Dispatcher → Dispatcher) → Error → WaitEnd

-- `waitWorkers`: its error, and the dispatcher after it.
unfoldable pub wait_workers : WaitEnd → Dispatcher → Option Error × Dispatcher
wait_workers (all_done others) d = (none, others d)
wait_workers (gave_up others e) d =
    let d₁ = others d in
    (some e, record d₁ { context_cancels = d₁.executing ++ d₁.context_cancels })

-- The body of the `shutdownOnce`.
unfoldable pub shut_down_once : WaitEnd → Dispatcher → Dispatcher
unfolding wait_workers
shut_down_once wait d =
    let d₁ = record d { running = false; stopped = true; ready = close d.ready } in
    let (e, d₂) = wait_workers wait d₁ in
    record d₂ {
      shutdown_result = some e;
      logs = LogEntry.shut_down (length d₂.executing) ∷ d₂.logs;
    }

first_result : Option (Option Error) → WaitEnd → Dispatcher → Dispatcher
first_result none wait d = shut_down_once wait d
first_result (some e) wait d = d

abbrev stored_result : Option (Option Error) → Option Error
stored_result none = none
stored_result (some e) = e

-- `Shutdown`.
unfoldable pub shutdown : WaitEnd → Dispatcher → Option Error × Dispatcher
unfolding first_result
shutdown wait d =
    let d' = first_result d.shutdown_result wait d in (stored_result d'.shutdown_result, d')
