-- ===== src/Tests/Samples.antt =====
-- The data that the tests share.
use jobx.Prelude.{true, false, List, [], ◌∷◌, Option, none, some}
use jobx.Text.{Text}
use jobx.Clock.{Time}
use jobx.Logs.{nop_logger}
use jobx.Metrics.{no_metrics}
use jobx.Errors.{Error, ok, foreign}
use jobx.Job.{Job, JobEntry}
use jobx.Options.{Config, Store, StoreCall, conflict_skip, queue_full_drop}
use jobx.ReadyQueue.{ReadyQueue}
use jobx.Dispatcher.State.{Dispatcher, Env, Handler, returned}
use jobx.Status.{StatusTable}

-- "mail", "wipe", and two ids.
abbrev pub mail : Text
mail = 109 ∷ 97 ∷ 105 ∷ 108 ∷ []

abbrev pub wipe : Text
wipe = 119 ∷ 105 ∷ 112 ∷ 101 ∷ []

abbrev pub id_a : Text
id_a = 97 ∷ []

abbrev pub id_b : Text
id_b = 98 ∷ []

abbrev pub job_at : Text → Text → Time → Job
job_at id name at = record {
  id = id;
  name = name;
  payload = [];
  created_at = 1;
  run_at = at;
  max_retries = 2;
  retry_delay = 5;
  timeout = 0;
  attempt = 0;
}

abbrev pub entry_at : Text → Text → Time → JobEntry
entry_at id name at = record { job = job_at id name at }

abbrev pub entry_a : JobEntry
entry_a = entry_at id_a mail 0

abbrev pub entry_b : JobEntry
entry_b = entry_at id_b wipe 7

-- A store whose first answer is an error, and that keeps nothing else to itself.
abbrev pub answer : List StoreCall → Option Error
answer [] = some (foreign [])
answer (_ ∷ _) = none

abbrev pub store : Store
store = record { save = λ calls job. answer calls; list = λ calls. ok [] }

abbrev pub config : Config
config = record {
  workers = 1;
  queue_size = 2;
  queue_policy = queue_full_drop;
  conflict = conflict_skip;
  max_payload = 8;
  now = λ n. 10;
  store = some store;
  logger = nop_logger;
  metrics = no_metrics;
  trace_hook = true;
  event_hook = false;
}

-- validx applies the rule; the random source gives a fixed id.
abbrev pub env : Env
env = record { validate_field = λ rule. rule; random_hex = λ n. ok id_b }

abbrev pub failing : Handler
failing job = returned (some (foreign job.name))

abbrev pub queue_of : List JobEntry → ReadyQueue
queue_of items = record { items = items; capacity = 2; closed = false; notify = false }

abbrev pub no_statuses : StatusTable
no_statuses = record { statuses = []; order = [] }

abbrev pub idle_dispatcher : Dispatcher
idle_dispatcher = record {
  env = env;
  cfg = config;
  handlers = (mail, failing) ∷ [];
  ready = queue_of [];
  stopped = false;
  signal = false;
  shutdown_result = none;
  running = true;
  executing = [];
  cancelled = [];
  table = no_statuses;
  in_flight = [];
  job_names = [];
  delay_heap = [];
  events = [];
  store_calls = [];
  logs = [];
  spans = [];
  context_cancels = [];
  clock_reads = 0;
  random_reads = 0;
}

-- One entry waits in the queue, and one on the delay heap.
abbrev pub busy_dispatcher : Dispatcher
busy_dispatcher = record idle_dispatcher {
  ready = queue_of (entry_a ∷ []);
  delay_heap = entry_b ∷ [];
  in_flight = (mail, id_a ∷ []) ∷ [];
  job_names = (id_a, mail) ∷ [];
}
