-- ===== src/Scheduler/Rounds.antt =====
-- internal/core/scheduler.go: the goroutines of the entries, `fire`, `Stop` and `Shutdown`.
pub mod Keeps
pub mod Stops
pub mod Ends
pub mod Halts
pub mod Begins
pub mod Skipped
use jobx.Prelude.{
  ℕ, zero, suc, ◌+◌, Bool, true, false, ◌&&◌, List, [], ◌∷◌, Option, none, some, get_elem?, set,
  if◌then◌else◌,
}
use jobx.Prelude.Maps.{delete}
use jobx.Text.{Text, text_discrete}
use jobx.Clock.{Time, Duration, add_duration}
use jobx.Errors.{Error, Result, ok, err, err_job_not_found}
use jobx.Logs.{Warning}
use jobx.Cron.{Expr, Parsed}
use jobx.Cron.Next
use jobx.Dispatcher.State.{Dispatcher, Meanwhile, Reply, returns, fails, blocks}
use jobx.Dispatcher.Submit.{submit_with_options}
use jobx.Scheduler.{
  Plan, every, cron, one_shot, Phase, ready, waiting, firing, leaving, removed, ended, Cell,
  Scheduler, take_entry, remove_entry, take_all, close_stop, Ending, ends, panics,
}

abbrev pub put_cell : ℕ → Cell → Scheduler → Scheduler
put_cell p c s = record s { cells = set s.cells p c }

-- What a goroutine makes of the result of `fire`: it goes on, it returns, or it is still in `Submit`.
abbrev pub after_fire : Phase → Reply Text → Phase
after_fire next (returns id) = next
after_fire next (fails e) = leaving
after_fire next blocks = firing

-- `logWarn` of `fire`.
abbrev warned : Text → Reply Text → List Warning → List Warning
warned name (returns id) l = l
warned name (fails e) l = Warning.not_submitted name e ∷ l
warned name blocks l = l

-- `fire`, after which the goroutine of the cell `c` goes on at the phase `next`.
unfoldable pub fire : Meanwhile → Phase → ℕ → Cell → Scheduler → Scheduler
fire meanwhile next p c s =
    let (reply, d) = submit_with_options meanwhile c.name [] [] s.dispatcher in
    record s {
      dispatcher = d;
      warnings = warned c.name reply s.warnings;
      cells = set s.cells p (record c { phase = after_fire next reply });
    }

begin_cron : Option (Result Time) → ℕ → Cell → Scheduler → Scheduler
begin_cron none p c s = s
begin_cron (some (err e)) p c s =
    put_cell p (record c { phase = leaving })
      (record s { warnings = Warning.no_next c.name e ∷ s.warnings })
begin_cron (some (ok t)) p c s = put_cell p (record c { next = t; phase = waiting }) s

begin_plan : Plan → Time → ℕ → Cell → Scheduler → Scheduler
unfolding begin_cron
begin_plan (every interval) now p c s = put_cell p (record c { phase = waiting }) s
begin_plan (cron e) now p c s = begin_cron (Next.next e s.loc now) p c s
begin_plan (one_shot at) now p c s = put_cell p (record c { phase = waiting }) s

timer_plan : Plan → Meanwhile → Time → ℕ → Cell → Scheduler → Scheduler
timer_plan (every interval) m now p c s =
    fire m waiting p (record c { next = add_duration now interval }) s
timer_plan (cron e) m now p c s = fire m ready p c s
timer_plan (one_shot at) m now p c s = fire m leaving p c s

-- Where the goroutine goes on after a submission of its plan.
abbrev pub resumed : Plan → Phase
resumed (every interval) = waiting
resumed (cron e) = ready
resumed (one_shot at) = leaving

-- What happens in the goroutine of an entry: it comes to the head of its loop, its timer fires, the
-- submission in which it was blocked answers, it sees that `stop` is closed, it runs `remove`, and it
-- closes `done`. What a blocked submission does to the dispatcher until it answers is a step of the
-- dispatcher.
pub data GoEvent : Type 0 where
  begins : Time → GoEvent
  timer : Meanwhile → Time → GoEvent
  answers : Reply Text → GoEvent
  sees_stop removes finishes : GoEvent

-- An event that the phase of the goroutine does not allow changes nothing.
go_cell : Phase → GoEvent → ℕ → Cell → Scheduler → Scheduler
unfolding begin_plan timer_plan
go_cell ready (begins now) p c s = begin_plan c.plan now p c s
go_cell waiting (timer m now) p c s = timer_plan c.plan m now p c s
go_cell firing (answers reply) p c s =
    put_cell p (record c { phase = after_fire (resumed c.plan) reply })
      (record s { warnings = warned c.name reply s.warnings })
go_cell waiting sees_stop p c s =
    if c.stop_closed then put_cell p (record c { phase = leaving }) s else s
go_cell leaving removes p c s = put_cell p (record c { phase = removed }) (remove_entry c.id s)
go_cell removed finishes p c s = put_cell p (record c { phase = ended }) s
go_cell _ _ p c s = s

go_found : Option Cell → GoEvent → ℕ → Scheduler → Scheduler
unfolding go_cell
go_found none ev p s = s
go_found (some c) ev p s = go_cell c.phase ev p c s

-- A step of the goroutine of the entry `p`.
unfoldable pub go : GoEvent → ℕ → Scheduler → Scheduler
unfolding go_found
go ev p s = go_found (get_elem? s.cells p) ev p s

-- `Stop` up to its wait for the goroutine of the entry: the error, or the entry that it waits for.
closed_entry : ℕ → Ending Scheduler → Ending (Result ℕ × Scheduler)
closed_entry p (ends s) = ends (ok p, s)
closed_entry p panics = panics

stop_taken : Option ℕ × Scheduler → Ending (Result ℕ × Scheduler)
unfolding closed_entry
stop_taken (none, s) = ends (err err_job_not_found, s)
stop_taken (some p, s) = closed_entry p (close_stop p s)

unfoldable pub stop : Text → Scheduler → Ending (Result ℕ × Scheduler)
unfolding stop_taken
stop id s = stop_taken (take_entry id s)

-- Whether the goroutine of an entry has closed `done`.
abbrev pub is_done : Option Cell → Bool
is_done none = false
is_done (some c) = is_ended c.phase
  where
    is_ended : Phase → Bool
    is_ended ended = true
    is_ended _ = false

-- The loop of `Shutdown` that closes the channels.
unfoldable pub close_all : List ℕ → Scheduler → Ending Scheduler
close_all [] s = ends s
close_all (p ∷ ps) s = elim (close_stop p s) [ ends s' ↦ close_all ps s' | panics ↦ panics ]

unfoldable pub shut : List ℕ × Scheduler → Ending Scheduler
shut (ps, s) = close_all ps s

-- `Shutdown` up to its wait for the goroutines.
unfoldable pub shutdown : Scheduler → Ending Scheduler
unfolding shut
shutdown s = if s.stopped then ends s else shut (take_all s)
