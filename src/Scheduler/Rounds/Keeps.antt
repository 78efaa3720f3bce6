-- ===== src/Scheduler/Rounds/Keeps.antt =====
-- internal/core/scheduler.go: what the steps of a goroutine leave alone.
use jobx.Prelude.{
  ℕ, ◌≤◌, ◌≡◌, refl, Bool, true, false, Option, none, some, arith, length, get_elem?, set,
  length-set, if◌then◌else◌,
}
use jobx.Clock.{Time}
use jobx.Errors.{Result, ok, err}
use jobx.Dispatcher.State.{Meanwhile}
use jobx.Scheduler.{
  Plan, every, cron, one_shot, Phase, ready, waiting, firing, leaving, removed, Cell, Scheduler,
  pointers,
}
use jobx.Scheduler.Rounds.{
  GoEvent, begins, timer, answers, sees_stop, removes, finishes, put_cell, fire, begin_cron,
  begin_plan, timer_plan, go_cell, go_found, go,
}
use jobx.Scheduler.Counts.{count, count-delete_le, closed_at, closed_at-set}

-- The step of a goroutine closes no channel, adds no cell, and may take entries off the map.
pub record Keeps (s s' : Scheduler) : Type 0 where
  pub closed : (q : ℕ) → closed_at q s'.cells ≡ closed_at q s.cells
  pub size : length s'.cells ≡ length s.cells
  pub fewer : (q : ℕ) → count q (pointers s'.entries) ≤ count q (pointers s.entries)
  pub stopped : s'.stopped ≡ s.stopped

pub Keeps-refl : (s : Scheduler) → Keeps s s
Keeps-refl s = record { closed = λ q. refl; size = refl; fewer = λ q. omega arith; stopped = refl }

set-Keeps :
    (s s' : Scheduler) (p : ℕ) (c c' : Cell)
    → get_elem? s.cells p ≡ some c
    → c'.stop_closed ≡ c.stop_closed
    → s'.cells ≡ set s.cells p c'
    → ((q : ℕ) → count q (pointers s'.entries) ≤ count q (pointers s.entries))
    → s'.stopped ≡ s.stopped
    → Keeps s s'
set-Keeps s s' p c c' at same e fewer stopped = record {
  closed = λ q. rw e (ground (arith, closed_at-set s.cells q p c c' at));
  size = rw e (length-set s.cells p c');
  fewer = fewer;
  stopped = stopped;
}

put_cell-Keeps :
    (s : Scheduler) (p : ℕ) (c c' : Cell)
    → get_elem? s.cells p ≡ some c
    → c'.stop_closed ≡ c.stop_closed
    → Keeps s (put_cell p c' s)
put_cell-Keeps s p c c' at same = set-Keeps s _ p c c' at same refl (λ q. omega arith) refl

fire-Keeps :
    (m : Meanwhile) (next : Phase) (p : ℕ) (c c' : Cell) (s : Scheduler)
    → get_elem? s.cells p ≡ some c
    → c'.stop_closed ≡ c.stop_closed
    → Keeps s (fire m next p c' s)
unfolding fire
fire-Keeps m next p c c' s at same = set-Keeps s _ p c _ at same refl (λ q. omega arith) refl

begin_cron-Keeps :
    (r : Option (Result Time)) (p : ℕ) (c : Cell) (s : Scheduler)
    → get_elem? s.cells p ≡ some c
    → Keeps s (begin_cron r p c s)
unfolding begin_cron
begin_cron-Keeps none p c s at = Keeps-refl s
begin_cron-Keeps (some (err e)) p c s at = set-Keeps s _ p c _ at refl refl (λ q. omega arith) refl
begin_cron-Keeps (some (ok t)) p c s at = put_cell-Keeps s p c _ at refl

begin_plan-Keeps :
    (plan : Plan) (now : Time) (p : ℕ) (c : Cell) (s : Scheduler)
    → get_elem? s.cells p ≡ some c
    → Keeps s (begin_plan plan now p c s)
unfolding begin_plan
begin_plan-Keeps (every i) now p c s at = put_cell-Keeps s p c _ at refl
begin_plan-Keeps (cron e) now p c s at = begin_cron-Keeps _ p c s at
begin_plan-Keeps (one_shot t) now p c s at = put_cell-Keeps s p c _ at refl

timer_plan-Keeps :
    (plan : Plan) (m : Meanwhile) (now : Time) (p : ℕ) (c : Cell) (s : Scheduler)
    → get_elem? s.cells p ≡ some c
    → Keeps s (timer_plan plan m now p c s)
unfolding timer_plan
timer_plan-Keeps (every i) m now p c s at = fire-Keeps m waiting p c _ s at refl
timer_plan-Keeps (cron e) m now p c s at = fire-Keeps m ready p c c s at refl
timer_plan-Keeps (one_shot t) m now p c s at = fire-Keeps m leaving p c c s at refl

sees_stop-Keeps :
    (b : Bool) (p : ℕ) (c c' : Cell) (s : Scheduler)
    → get_elem? s.cells p ≡ some c
    → c'.stop_closed ≡ c.stop_closed
    → Keeps s (if b then put_cell p c' s else s)
sees_stop-Keeps true p c c' s at same = put_cell-Keeps s p c c' at same
sees_stop-Keeps false p c c' s at same = Keeps-refl s

go_cell-Keeps :
    (phase : Phase) (ev : GoEvent) (p : ℕ) (c : Cell) (s : Scheduler)
    → get_elem? s.cells p ≡ some c
    → Keeps s (go_cell phase ev p c s)
unfolding go_cell
go_cell-Keeps ready (begins now) p c s at = begin_plan-Keeps c.plan now p c s at
go_cell-Keeps waiting (timer m now) p c s at = timer_plan-Keeps c.plan m now p c s at
go_cell-Keeps firing (answers reply) p c s at =
    set-Keeps s _ p c _ at refl refl (λ q. omega arith) refl
go_cell-Keeps waiting sees_stop p c s at = sees_stop-Keeps c.stop_closed p c _ s at refl
go_cell-Keeps leaving removes p c s at =
    set-Keeps s _ p c (record c { phase = removed }) at refl refl
      (λ q. count-delete_le q c.id s.entries) refl
go_cell-Keeps removed finishes p c s at = put_cell-Keeps s p c _ at refl
go_cell-Keeps _ _ p c s at = Keeps-refl s

go_found-Keeps :
    (o : Option Cell) (ev : GoEvent) (p : ℕ) (s : Scheduler)
    → get_elem? s.cells p ≡ o
    → Keeps s (go_found o ev p s)
unfolding go_found
go_found-Keeps none ev p s at = Keeps-refl s
go_found-Keeps (some c) ev p s at = go_cell-Keeps c.phase ev p c s at

pub go-Keeps : (ev : GoEvent) (p : ℕ) (s : Scheduler) → Keeps s (go ev p s)
unfolding go
go-Keeps ev p s = go_found-Keeps (get_elem? s.cells p) ev p s refl
