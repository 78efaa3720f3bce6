-- ===== src/Scheduler/Rounds/Halts.antt =====
-- internal/core/scheduler.go: `Stop`, and the end of the goroutine that it waits for.
use jobx.Prelude.{
  ℕ, ◌*◌, ◌≤◌, ◌≡◌, ◌≢◌, refl, sym, true, Option, none, some, arith, get_elem?, set, get_elem?-set,
}
use jobx.Prelude.Maps.{lookup, delete, lookup-delete}
use jobx.Text.{Text, text_discrete}
use jobx.Clock.{Time}
use jobx.Errors.{Result, ok, err, err_job_not_found}
use jobx.Cron.{Expr}
use jobx.Cron.Whole.{IsSound}
use jobx.Cron.Calendar.{Location, IsHourly}
use jobx.Cron.Next.{nanoseconds}
use jobx.Cron.Next.Least.{IsNextFiring, next-IsNextFiring}
use jobx.Scheduler.{
  Plan, every, cron, one_shot, firing, Cell, Scheduler, taken, take_entry, close_stop, Ending, ends,
  panics,
}
use jobx.Scheduler.Rounds.{stop, stop_taken, closed_entry, is_done}
use jobx.Scheduler.Rounds.Stops.{close_stop-found}
use jobx.Scheduler.Rounds.Ends.{HasNext, drive, drive-is_done}

-- The plans that the scheduler makes: the expression of a periodic one has its fields in their bounds.
abbrev pub IsPlan : Plan → Type 0
IsPlan (cron e) = IsSound e
IsPlan _ = Unit

some_time :
    (e : Expr) (loc : Location) (now : Time) (o : Option (Result Time))
    → IsNextFiring e loc now o
    → (r : Result Time) × (o ≡ some r)
some_time e loc now (some r) h = (r, refl)
some_time e loc now none h = absurd h

IsPlan-HasNext :
    (plan : Plan) (loc : Location) (now : Time)
    → IsPlan plan
    → IsHourly loc
    → 86400 * nanoseconds ≤ now
    → HasNext plan loc now
IsPlan-HasNext (every i) loc now sound hours late = tt
IsPlan-HasNext (one_shot t) loc now sound hours late = tt
IsPlan-HasNext (cron e) loc now sound hours late =
    some_time e loc now _ (next-IsNextFiring e loc now sound hours late)

-- What a call of `Stop` that found its entry has done.
record IsStopped (id : Text) (p : ℕ) (s s' : Scheduler) : Type 0 where
  pub cell : Cell
  pub found : get_elem? s.cells p ≡ some cell
  pub state : s' ≡ record s {
    entries = delete text_discrete id s.entries;
    cells = set s.cells p (record cell { stop_closed = true });
  }

closed_entry-found :
    (q p : ℕ) (x : Ending Scheduler) (s' : Scheduler)
    → closed_entry q x ≡ ends (ok p, s')
    → (q ≡ p) × (x ≡ ends s')
unfolding closed_entry
closed_entry-found q p (ends s₁) s' h = (ground arith, ground arith)
closed_entry-found q p panics s' h = absurd (ground arith)

taken-IsStopped :
    (o : Option ℕ) (id : Text) (p : ℕ) (s s' : Scheduler)
    → stop_taken (taken o id s) ≡ ends (ok p, s')
    → IsStopped id p s s'
unfolding taken stop_taken
taken-IsStopped none id p s s' h = absurd (ground arith)
taken-IsStopped (some q) id p s s' h =
    let (same, e) =
      closed_entry-found q p
        (close_stop q (record s { entries = delete text_discrete id s.entries })) s' h in
    let (c, at, open_yet, is) =
      close_stop-found q (record s { entries = delete text_discrete id s.entries }) s' e in
    rw (← same) (record { cell = c; found = at; state = sym is })

stop-IsStopped :
    (id : Text) (p : ℕ) (s s' : Scheduler) → stop id s ≡ ends (ok p, s') → IsStopped id p s s'
unfolding stop take_entry
stop-IsStopped id p s s' h = taken-IsStopped _ id p s s' h

stop-missing :
    (id : Text) (s : Scheduler)
    → lookup text_discrete id s.entries ≡ none
    → stop id s ≡ ends (err err_job_not_found, s)
unfolding stop take_entry taken stop_taken
stop-missing id s h = rw h refl

-- After a call of `Stop` that finds its entry, a second call of `Stop` says that there is no such entry
-- and changes nothing; and, if the goroutine of the entry is not in
-- the middle of a submission, the next four steps of it in which its `select` takes the closed
-- channel, and not the timer, close `done`, for which `Stop` waits. The fields of the expression of a
-- `Cron` entry are in their bounds, the location has a fixed offset of whole hours, and the time is a
-- day after the zero time at least.
pub stop-is_done :
    (id : Text) (p : ℕ) (c : Cell) (s s' : Scheduler) (now : Time)
    → stop id s ≡ ends (ok p, s')
    → get_elem? s.cells p ≡ some c
    → c.phase ≢ firing
    → IsPlan c.plan
    → IsHourly s.loc
    → 86400 * nanoseconds ≤ now
    → (stop id s' ≡ ends (err err_job_not_found, s'))
      × (is_done (get_elem? (drive now p s').cells p) ≡ true)
stop-is_done id p c s s' now h at not_firing plan hours late =
    let k = stop-IsStopped id p s s' h in
    let same : k.cell ≡ c = ground (arith, k.found) in
    let gone : lookup text_discrete id (delete text_discrete id s.entries) ≡ none =
      ground (arith, lookup-delete text_discrete id id s.entries) in
    let c' = record c { stop_closed = true } in
    rw (k.state, same)
      (
        stop-missing id _ gone,
        drive-is_done now p c' _ (get_elem?-set s.cells p c c' at) refl not_firing
            (IsPlan-HasNext c.plan s.loc now plan hours late),
      )
