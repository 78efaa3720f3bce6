-- ===== src/Dispatcher/State.antt =====
-- internal/core/dispatcher.go: the state of the dispatcher, and the calls that change it.
-- The lists `events`, `store_calls`, `logs`, `spans` and `context_cancels` have the newest entry first.
use jobx.Prelude.{ℕ, Bool, true, false, List, [], Option, none, some}
use jobx.Text.{Text}
use jobx.Errors.{Error, Result, ok, err}
use jobx.Job.{Job, JobEntry}
use jobx.Options.{Config, StoreCall}
use jobx.ReadyQueue.{ReadyQueue, Wake}
use jobx.Status.{StatusTable}
use jobx.InFlight.{InFlight}
use jobx.Metrics.{MetricEvent}
use jobx.Logs.{LogEntry, Span}

-- How a handler ends: it returns, with an error or with nil, or it panics with a value.
pub data Outcome : Type 0 where
  returned : Option Error → Outcome
  panicked : Text → Outcome

-- A handler that the user registers, of which the dispatcher sees the outcome.
abbrev pub Handler : Type 0
Handler = Job → Outcome

-- What is outside the repository: validx, and the random source of idgenx, by the number of ids
-- read before.
pub record Env : Type 0 where
  pub validate_field : (Text → Option Error) → Text → Option Error
  pub random_hex : ℕ → Result Text

pub record Dispatcher : Type 0 where
  pub env : Env
  pub cfg : Config
  pub handlers : List (Text × Handler)
  pub ready : ReadyQueue
  -- `stopCh` is closed.
  pub stopped : Bool
  -- A token stands in the channel `signal`, whose capacity is 1.
  pub signal : Bool
  -- `none` until `shutdownOnce` has run; then `shutdownErr`.
  pub shutdown_result : Option (Option Error)
  pub running : Bool
  -- The ids whose cancel function is stored.
  pub executing : List Text
  pub cancelled : List Text
  pub table : StatusTable
  pub in_flight : InFlight
  pub job_names : List (Text × Text)
  pub delay_heap : List JobEntry
  pub events : List MetricEvent
  pub store_calls : List StoreCall
  pub logs : List LogEntry
  pub spans : List Span
  -- The ids whose context was cancelled while they executed.
  pub context_cancels : List Text
  pub clock_reads : ℕ
  pub random_reads : ℕ

-- What the other goroutines do while a call places an entry: while `push` waits, between the return of
-- `push` or `pushDelayed` and the change of the status, and after that, until the call returns or goes
-- on.
pub record Meanwhile : Type 0 where
  pub wakes : List (Wake Dispatcher)
  pub after_push : Dispatcher → Dispatcher
  pub after_mark : Dispatcher → Dispatcher

-- No other goroutine runs meanwhile.
abbrev pub alone : Meanwhile
alone = record { wakes = []; after_push = λ d. d; after_mark = λ d. d }

-- How a call ends: it returns a value, it returns an error, or it still waits when the events that
-- it is given end.
pub data Reply {ℓ} (A : Type ℓ) : Type ℓ where
  returns : A → Reply A
  fails : Error → Reply A
  blocks : Reply A

-- A call that reads and changes the dispatcher.
abbrev pub Call : Type 0 → Type 0
Call A = Dispatcher → Reply A × Dispatcher

abbrev pub then_call : {A B : Type 0} → Reply A × Dispatcher → (A → Call B) → Reply B × Dispatcher
then_call (returns a, d) f = f a d
then_call (fails e, d) f = (fails e, d)
then_call (blocks, d) f = (blocks, d)

infixl 5 ◌>>=◌ ◌>>◌
abbrev pub ◌>>=◌ : {A B : Type 0} → Call A → (A → Call B) → Call B
◌>>=◌ m f d = then_call (m d) f

abbrev pub ◌>>◌ : {B : Type 0} → Call (Unit {0}) → Call B → Call B
m >> k = m >>= λ _. k

abbrev pub return : {A : Type 0} → A → Call A
return a d = (returns a, d)

abbrev pub update : (Dispatcher → Dispatcher) → Call (Unit {0})
update f d = (returns tt, f d)

abbrev pub fail_if : Bool → Error → Call (Unit {0})
fail_if true e d = (fails e, d)
fail_if false e d = (returns tt, d)

-- `if err := …; err != nil { return err }`.
abbrev pub check : Option Error → Call (Unit {0})
check none d = (returns tt, d)
check (some e) d = (fails e, d)

abbrev pub lift : {A : Type 0} → Result A → Call A
lift (ok a) d = (returns a, d)
lift (err e) d = (fails e, d)

-- What is undone before an error is passed on.
abbrev pub cleaned :
    {A : Type 0} → (Dispatcher → Dispatcher) → Reply A × Dispatcher → Reply A × Dispatcher
cleaned undo (returns a, d) = (returns a, d)
cleaned undo (fails e, d) = (fails e, undo d)
cleaned undo (blocks, d) = (blocks, d)

abbrev pub on_error : {A : Type 0} → (Dispatcher → Dispatcher) → Call A → Call A
on_error undo m d = cleaned undo (m d)
