-- ===== src/Scheduler/System.antt =====
-- internal/core/scheduler.go: the scheduler with its goroutines and the calls of `Stop` and `Shutdown`,
-- interleaved in any order.
pub mod Closes
pub mod Shutdowns
use jobx.Prelude.{ℕ, ◌≡◌, Bool, true, false, List, [], ◌∷◌, ◌++◌, Option, none, some, ◌<◌, length}
use jobx.Text.{Text}
use jobx.Clock.{Time}
use jobx.Errors.{Result, ok, err}
use jobx.Logs.{nop_logger}
use jobx.Cron.Calendar.{Location}
use jobx.Dispatcher.State.{Dispatcher}
use jobx.Scheduler.{Scheduler, Plan, register, take_entry, take_all, close_stop, Ending, ends}
use jobx.Scheduler.Rounds.{GoEvent, go}

-- The scheduler, and the entries that a call of `Stop` or `Shutdown` has taken off the map and whose
-- channels it has not closed yet.
pub record System : Type 0 where
  pub sched : Scheduler
  pub pending : List ℕ

-- The steps that goroutines take one at a time: a registration; the locked sections of `Stop` and
-- of `Shutdown`; the closing of a channel by one of them; a step of the goroutine of an entry; and
-- whatever others do to the dispatcher.
pub data Step (y : System) : System → Type 0 where
  registers :
      (id name : Text) (next : Time) (plan : Plan)
      → Step y (record { sched = (register id name next plan y.sched).1; pending = y.pending })
  takes :
      (id : Text) (p : ℕ) (s : Scheduler)
      → take_entry id y.sched ≡ (some p, s)
      → Step y (record { sched = s; pending = p ∷ y.pending })
  takes_all :
      y.sched.stopped ≡ false
      → Step y
          (record { sched = (take_all y.sched).1; pending = (take_all y.sched).0 ++ y.pending })
  closes :
      (before after : List ℕ) (p : ℕ) (s : Scheduler)
      → y.pending ≡ before ++ (p ∷ after)
      → close_stop p y.sched ≡ ends s
      → Step y (record { sched = s; pending = before ++ after })
  goes : (ev : GoEvent) (p : ℕ) → Step y (record { sched = go ev p y.sched; pending = y.pending })
  dispatches :
      (d : Dispatcher)
      → Step y (record { sched = record y.sched { dispatcher = d }; pending = y.pending })

-- A new scheduler.
abbrev pub start : Dispatcher → Location → System
start d loc = record {
  sched = record {
    dispatcher = d;
    loc = loc;
    logger = nop_logger;
    warnings = [];
    cells = [];
    entries = [];
    stopped = false;
  };
  pending = [];
}

pub data Reach (d : Dispatcher) (loc : Location) : System → Type 0 where
  here : Reach d loc (start d loc)
  later : {y z : System} → Reach d loc y → Step y z → Reach d loc z
