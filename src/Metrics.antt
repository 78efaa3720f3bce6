-- ===== src/Metrics.antt =====
-- The metric callbacks of internal/core/options.go, the `metric…` methods of
-- internal/core/dispatcher.go and the task events of internal/core/event.go. A call of a `metric…`
-- method is one entry of the dispatcher's trace: it stands for the call of the callback, if one is
-- set, and of the event hook, if one is set.
use jobx.Prelude.{ℕ, Bool, false, List, [], ◌∷◌, ◌++◌, Option, none, some, if◌then◌else◌}
use jobx.Text.{Text}
use jobx.Clock.{Duration}
use jobx.Errors.{Error}

pub data Delta : Type 0 where
  plus_one minus_one : Delta

pub data MetricEvent : Type 0 where
  queued : Text → Delta → MetricEvent
  running : Text → Delta → MetricEvent
  completed : Text → Duration → MetricEvent
  failed : Text → Error → MetricEvent
  retried : Text → ℕ → MetricEvent
  dropped skipped replaced : Text → MetricEvent

-- Which of the callbacks are set.
pub record Metrics : Type 0 where
  pub queued : Bool
  pub running : Bool
  pub completed : Bool
  pub failed : Bool
  pub retried : Bool
  pub dropped : Bool
  pub skipped : Bool
  pub replaced : Bool

-- `Metrics{}`.
abbrev pub no_metrics : Metrics
no_metrics = record {
  queued = false;
  running = false;
  completed = false;
  failed = false;
  retried = false;
  dropped = false;
  skipped = false;
  replaced = false;
}

pub data Action : Type 0 where
  queued running completed failed retried dropped skipped replaced : Action

pub record TaskEvent : Type 0 where
  pub action : Action
  pub name : Text
  pub attempt : ℕ
  pub error : Option Error

-- What `emitTaskEvent` hands to the hook.
unfoldable pub task_event : MetricEvent → TaskEvent
task_event (MetricEvent.queued name delta) = record {
  action = Action.queued;
  name = name;
  attempt = 0;
  error = none;
}
task_event (MetricEvent.running name delta) = record {
  action = Action.running;
  name = name;
  attempt = 0;
  error = none;
}
task_event (MetricEvent.completed name duration) = record {
  action = Action.completed;
  name = name;
  attempt = 0;
  error = none;
}
task_event (MetricEvent.failed name e) = record {
  action = Action.failed;
  name = name;
  attempt = 0;
  error = some e;
}
task_event (MetricEvent.retried name attempt) = record {
  action = Action.retried;
  name = name;
  attempt = attempt;
  error = none;
}
task_event (MetricEvent.dropped name) = record {
  action = Action.dropped;
  name = name;
  attempt = 0;
  error = none;
}
task_event (MetricEvent.skipped name) = record {
  action = Action.skipped;
  name = name;
  attempt = 0;
  error = none;
}
task_event (MetricEvent.replaced name) = record {
  action = Action.replaced;
  name = name;
  attempt = 0;
  error = none;
}

-- Whether the callback of a `metric…` method is set.
abbrev pub is_set : Metrics → MetricEvent → Bool
is_set m (MetricEvent.queued name delta) = m.queued
is_set m (MetricEvent.running name delta) = m.running
is_set m (MetricEvent.completed name duration) = m.completed
is_set m (MetricEvent.failed name e) = m.failed
is_set m (MetricEvent.retried name attempt) = m.retried
is_set m (MetricEvent.dropped name) = m.dropped
is_set m (MetricEvent.skipped name) = m.skipped
is_set m (MetricEvent.replaced name) = m.replaced

-- What the user sees of a call of a `metric…` method: a call of its callback, then one of the event
-- hook.
pub data HookCall : Type 0 where
  calls_metric : MetricEvent → HookCall
  calls_event : TaskEvent → HookCall

unfoldable pub hook_calls : Metrics → Bool → MetricEvent → List HookCall
hook_calls m event_hook e =
    (if is_set m e then calls_metric e ∷ [] else [])
    ++ (if event_hook then calls_event (task_event e) ∷ [] else [])
