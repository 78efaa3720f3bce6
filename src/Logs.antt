-- ===== src/Logs.antt =====
-- What the program hands to its logger and to its trace hook: the `log…` methods of
-- internal/core/dispatcher.go and internal/core/worker.go, `logWarn` of internal/core/scheduler.go,
-- `traceStart` of internal/core/worker.go, and
-- `normalizeLogger` of internal/core/options.go. The formatting of the fields is left to logx.
use jobx.Prelude.{ℕ, Option}
use jobx.Text.{Text}
use jobx.Clock.{Time, Duration}
use jobx.Errors.{Error}
use jobx.Job.{Job}

-- A logger as it is given: nil, an interface that holds a nil pointer, the one of logx that writes
-- nothing, or one that writes.
pub data Logger : Type 0 where
  nil_logger nil_pointer nop_logger given_logger : Logger

unfoldable pub normalize_logger : Logger → Logger
normalize_logger nil_logger = nop_logger
normalize_logger nil_pointer = nop_logger
normalize_logger nop_logger = nop_logger
normalize_logger given_logger = given_logger

-- A call of the logger, by the method that makes it.
pub data LogEntry : Type 0 where
  submitted started skipped replaced : Job → LogEntry
  completed : Job → Duration → LogEntry
  retrying : Job → Time → Error → LogEntry
  shut_down : ℕ → LogEntry
  failed : Job → Error → LogEntry
  panicked : Job → Text → LogEntry
  handler_missing : Job → LogEntry

-- A call of `logWarn` of internal/core/scheduler.go: the expression of the entry has no next time, or
-- its submission failed.
pub data Warning : Type 0 where
  no_next not_submitted : Text → Error → Warning

-- The start of a span, and its end with the error that it is given.
pub data Span : Type 0 where
  opens : Job → Span
  closes : Option Error → Span
