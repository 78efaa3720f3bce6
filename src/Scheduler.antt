-- ===== src/Scheduler.antt =====
-- internal/core/scheduler.go: the entries of the scheduler, their registration and their removal.
-- A `*scheduleEntry` is the index of its cell; the cell also holds what the goroutine of the entry
-- captured and where it stands.
pub mod Counts
pub mod Rounds
pub mod Wrappers
pub mod System
use jobx.Prelude.{
  ℕ, zero, suc, ◌+◌, ◌*◌, ◌^◌, Bool, true, false, not, ◌||◌, List, [], ◌∷◌, ◌++◌, Option, none,
  some, length, get_elem?, set, ltb, if◌then◌else◌, map,
}
use jobx.Prelude.Maps.{lookup, insert, delete}
use jobx.Text.{Text, text_discrete}
use jobx.Clock.{Time, Duration, is_negative, is_after}
use jobx.Errors.{
  Error, Result, ok, err, new_code, wrap_code, cron_invalid, scheduler_stopped, id_generate_failed,
  err_job_invalid, err_job_not_found, err_invalid_config, err_handler_not_found, ◌>>=◌,
}
use jobx.Logs.{Logger, nil_logger, normalize_logger, Warning}
use jobx.Cron.{Expr, Parsed, parsed, invalid, crash}
use jobx.Cron.Calendar.{Location}
use jobx.Dispatcher.State.{Dispatcher, Handler}
use jobx.Dispatcher.Steps.{validate_name}

-- What the goroutine of an entry runs.
pub data Plan : Type 0 where
  every : Duration → Plan
  cron : Expr → Plan
  one_shot : Time → Plan

-- Where the goroutine of an entry stands: at the head of its loop, in its `select`, in a submission,
-- after its last round, after the deferred `remove`, and after `close(entry.done)`.
pub data Phase : Type 0 where
  ready waiting firing leaving removed ended : Phase

pub record Cell : Type 0 where
  pub id : Text
  pub name : Text
  pub next : Time
  -- `stop` is closed.
  pub stop_closed : Bool
  pub plan : Plan
  pub phase : Phase

pub record Scheduler : Type 0 where
  pub dispatcher : Dispatcher
  pub loc : Location
  pub logger : Logger
  -- The calls of the logger, the newest first.
  pub warnings : List Warning
  pub cells : List Cell
  pub entries : List (Text × ℕ)
  pub stopped : Bool

pub record SchedulerConfig : Type 0 where
  pub loc : Location
  pub logger : Logger

abbrev pub SchedulerOption : Type 0
SchedulerOption = SchedulerConfig → Result SchedulerConfig

-- `WithLocation`; `none` is a nil location.
unfoldable pub with_location : Option Location → SchedulerOption
with_location none c = err err_invalid_config
with_location (some loc) c = ok (record c { loc = loc })

unfoldable pub with_scheduler_logger : Logger → SchedulerOption
with_scheduler_logger logger c = ok (record c { logger = logger })

-- The option loop of `NewScheduler`.
unfoldable pub configure : List SchedulerOption → SchedulerConfig → Result SchedulerConfig
configure [] c = ok c
configure (opt ∷ opts) c = opt c >>= configure opts

-- `NewScheduler`; `none` is a nil dispatcher, and `local` is `time.Local`.
unfoldable pub new_scheduler :
    Option Dispatcher → Location → List SchedulerOption → Result Scheduler
new_scheduler none local opts = err err_invalid_config
new_scheduler (some d) local opts =
    configure opts (record { loc = local; logger = nil_logger }) >>= λ c. ok (record {
      dispatcher = d;
      loc = c.loc;
      logger = normalize_logger c.logger;
      warnings = [];
      cells = [];
      entries = [];
      stopped = false;
    })

handler_error : Option Handler → Option Error
handler_error none = some err_handler_not_found
handler_error (some h) = none

name_or_handler : Option Error → Option Handler → Option Error
unfolding handler_error
name_or_handler (some e) h = some e
name_or_handler none h = handler_error h

-- `checkHandler`.
unfoldable pub check_handler : Text → Scheduler → Option Error
unfolding name_or_handler
check_handler name s =
    name_or_handler (validate_name s.dispatcher.env name)
      (lookup text_discrete name s.dispatcher.handlers)

-- `newEntry`: the id, and the dispatcher whose random source has been read.
unfoldable pub new_id : Scheduler → Result Text × Scheduler
new_id s =
    let d = s.dispatcher in
    (
      d.env.random_hex d.random_reads,
      record s { dispatcher = record d { random_reads = suc d.random_reads } },
    )

abbrev pub fresh_cell : Text → Text → Time → Plan → Cell
fresh_cell id name next plan = record {
  id = id;
  name = name;
  next = next;
  stop_closed = false;
  plan = plan;
  phase = ready;
}

-- `register`, and the start of the goroutine.
unfoldable pub register : Text → Text → Time → Plan → Scheduler → Result ℕ × Scheduler
register id name next plan s = if s.stopped then (err (new_code scheduler_stopped), s) else (
  ok (length s.cells),
  record s {
    cells = s.cells ++ fresh_cell id name next plan ∷ [];
    entries = insert text_discrete id (length s.cells) s.entries;
  },
)

register_with : Result Text × Scheduler → Text → Time → Plan → Result ℕ × Scheduler
register_with (err e, s) name next plan = (err (wrap_code e id_generate_failed), s)
register_with (ok id, s) name next plan = register id name next plan s

checked : Option Error → Text → Time → Plan → Scheduler → Result ℕ × Scheduler
unfolding register_with
checked (some e) name next plan s = (err e, s)
checked none name next plan s = register_with (new_id s) name next plan

-- The part that `Every`, `Cron` and `OneShot` have in common: the result stands for the entry.
unfoldable pub add_entry : Text → Time → Plan → Scheduler → Result ℕ × Scheduler
unfolding checked
add_entry name next plan s = checked (check_handler name s) name next plan s

-- `Every`; the interval is one second at least.
unfoldable pub add_every : Duration → Text → Scheduler → Result ℕ × Scheduler
add_every interval name s =
    if is_negative interval || ltb interval (10 ^ 9)
    then (err err_job_invalid, s)
    else add_entry name 0 (every interval) s

-- `OneShot`, at the time `now` of the wall clock.
unfoldable pub add_one_shot : Time → Time → Text → Scheduler → Result ℕ × Scheduler
add_one_shot now at name s =
    if not (is_after at now) then (err err_job_invalid, s) else add_entry name at (one_shot at) s

-- How a call ends that may panic.
pub data Ending {ℓ} (A : Type ℓ) : Type ℓ where
  ends : A → Ending A
  panics : Ending A

unfoldable pub add_parsed : Parsed Expr → Text → Scheduler → Ending (Result ℕ × Scheduler)
add_parsed (parsed e) name s = ends (add_entry name 0 (cron e) s)
add_parsed invalid name s = ends (err (new_code cron_invalid), s)
add_parsed crash name s = panics

-- What `List` and `snapshot` show of an entry.
pub record Schedule : Type 0 where
  pub id : Text
  pub name : Text
  pub next : Time

abbrev pub shown : Option Cell → List Schedule
shown none = []
shown (some c) = record { id = c.id; name = c.name; next = c.next } ∷ []

shown_all : List (Text × ℕ) → List Cell → List Schedule
shown_all [] cells = []
shown_all ((id, p) ∷ entries) cells = shown (get_elem? cells p) ++ shown_all entries cells

-- `List`.
unfoldable pub list : Scheduler → List Schedule
unfolding shown_all
list s = shown_all s.entries s.cells

taken : Option ℕ → Text → Scheduler → Option ℕ × Scheduler
taken none id s = (none, s)
taken (some p) id s = (some p, record s { entries = delete text_discrete id s.entries })

-- The section of `Stop` under the lock.
unfoldable pub take_entry : Text → Scheduler → Option ℕ × Scheduler
unfolding taken
take_entry id s = taken (lookup text_discrete id s.entries) id s

-- `remove`.
abbrev pub remove_entry : Text → Scheduler → Scheduler
remove_entry id s = record s { entries = delete text_discrete id s.entries }

abbrev pub pointers : List (Text × ℕ) → List ℕ
pointers [] = []
pointers ((id, p) ∷ entries) = p ∷ pointers entries

-- The section of `Shutdown` under the lock, where it is the first.
unfoldable pub take_all : Scheduler → List ℕ × Scheduler
take_all s = (pointers s.entries, record s { entries = []; stopped = true })

close_cell : Option Cell → ℕ → Scheduler → Ending Scheduler
close_cell none p s = panics
close_cell (some c) p s =
    if c.stop_closed
    then panics
    else ends (record s { cells = set s.cells p (record c { stop_closed = true }) })

-- `close(entry.stop)`, which panics if the channel is closed.
unfoldable pub close_stop : ℕ → Scheduler → Ending Scheduler
unfolding close_cell
close_stop p s = close_cell (get_elem? s.cells p) p s
