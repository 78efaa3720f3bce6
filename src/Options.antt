-- ===== src/Options.antt =====
-- internal/core/options.go: the configuration of the dispatcher and its options.
-- The metric callbacks and the hooks are outside the program; the configuration says which are set.
use jobx.Prelude.{
  ℕ, zero, suc, ◌^◌, Bool, false, ◌||◌, List, [], ◌∷◌, Option, none, some, ◌==◌, if◌then◌else◌,
}
use jobx.Text.{Text}
use jobx.Clock.{Time, Word, is_negative}
use jobx.Errors.{Error, Result, ok, err, err_invalid_config, ◌>>=◌}
use jobx.Job.{Job}
use jobx.Logs.{Logger, nil_logger}
use jobx.Metrics.{Metrics, no_metrics}

pub data QueueFullPolicy : Type 0 where
  queue_full_block queue_full_drop : QueueFullPolicy

pub data ConflictPolicy : Type 0 where
  conflict_skip conflict_replace conflict_allow : ConflictPolicy

-- A call of the `Store` interface that changes the store.
pub data StoreCall : Type 0 where
  saves : Job → StoreCall
  deletes : Text → StoreCall

-- A store that the user supplies (internal/core/store.go): how it answers, given the calls that it
-- has had. The program ignores the answer of `Delete`.
pub record Store : Type 0 where
  pub save : List StoreCall → Job → Option Error
  pub list : List StoreCall → Result (List Job)

pub record Config : Type 0 where
  pub workers : Word
  pub queue_size : Word
  pub queue_policy : QueueFullPolicy
  pub conflict : ConflictPolicy
  pub max_payload : Word
  -- The n-th reading of the clock.
  pub now : ℕ → Time
  pub store : Option Store
  pub logger : Logger
  pub metrics : Metrics
  pub trace_hook : Bool
  pub event_hook : Bool

-- `time.Now` is the argument.
unfoldable pub default_config : (ℕ → Time) → Config
default_config now = record {
  workers = 4;
  queue_size = 1024;
  queue_policy = queue_full_block;
  conflict = conflict_skip;
  max_payload = 2 ^ 20;
  now = now;
  store = none;
  logger = nil_logger;
  metrics = no_metrics;
  trace_hook = false;
  event_hook = false;
}

abbrev pub ConfigOption : Type 0
ConfigOption = Config → Result Config

-- `n <= 0`.
abbrev pub is_not_positive : Word → Bool
is_not_positive n = n == 0 || is_negative n

unfoldable pub with_workers : Word → ConfigOption
with_workers n c =
    if is_not_positive n then err err_invalid_config else ok (record c { workers = n })

unfoldable pub with_queue_size : Word → ConfigOption
with_queue_size n c =
    if is_not_positive n then err err_invalid_config else ok (record c { queue_size = n })

-- The policies are `uint8` in the source: 0 and 1 are valid.
unfoldable pub with_queue_full_policy : ℕ → ConfigOption
with_queue_full_policy zero c = ok (record c { queue_policy = queue_full_block })
with_queue_full_policy (suc zero) c = ok (record c { queue_policy = queue_full_drop })
with_queue_full_policy (suc (suc p)) c = err err_invalid_config

-- 0, 1 and 2 are valid.
unfoldable pub with_conflict_policy : ℕ → ConfigOption
with_conflict_policy zero c = ok (record c { conflict = conflict_skip })
with_conflict_policy (suc zero) c = ok (record c { conflict = conflict_replace })
with_conflict_policy (suc (suc zero)) c = ok (record c { conflict = conflict_allow })
with_conflict_policy (suc (suc (suc p))) c = err err_invalid_config

unfoldable pub with_max_payload_bytes : Word → ConfigOption
with_max_payload_bytes n c =
    if is_not_positive n then err err_invalid_config else ok (record c { max_payload = n })

unfoldable pub with_logger : Logger → ConfigOption
with_logger logger c = ok (record c { logger = logger })

unfoldable pub with_metrics : Metrics → ConfigOption
with_metrics m c = ok (record c { metrics = m })

-- `false` is a nil hook.
unfoldable pub with_trace_hook : Bool → ConfigOption
with_trace_hook set c = ok (record c { trace_hook = set })

unfoldable pub with_event_hook : Bool → ConfigOption
with_event_hook set c = ok (record c { event_hook = set })

-- `none` is a nil store.
unfoldable pub with_store : Option Store → ConfigOption
with_store none c = err err_invalid_config
with_store (some store) c = ok (record c { store = some store })

-- `none` is a nil clock.
unfoldable pub with_clock : Option (ℕ → Time) → ConfigOption
with_clock none c = err err_invalid_config
with_clock (some now) c = ok (record c { now = now })

-- The option loop of `NewDispatcher`.
unfoldable pub configure : List ConfigOption → Config → Result Config
configure [] c = ok c
configure (opt ∷ opts) c = opt c >>= configure opts
