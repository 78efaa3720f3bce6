-- ===== src/Scheduler/Rounds/Ends.antt =====
-- internal/core/scheduler.go: what the goroutine of an entry does after `close(entry.stop)`.
use jobx.Prelude.{
  ℕ, ◌≤◌, ◌≡◌, ◌≢◌, refl, Bool, true, false, Option, none, some, arith, get_elem?, get_elem?-set,
  if◌then◌else◌,
}
use jobx.Clock.{Time}
use jobx.Errors.{Result, ok, err}
use jobx.Cron.Calendar.{Location}
use jobx.Cron.Next
use jobx.Cron.Next.{nanoseconds}
use jobx.Scheduler.{
  Plan, every, cron, one_shot, Phase, ready, waiting, firing, leaving, removed, ended, Cell,
  Scheduler,
}
use jobx.Scheduler.Rounds.{
  GoEvent, begins, sees_stop, removes, finishes, put_cell, begin_cron, begin_plan, go_cell,
  go_found, go, is_done,
}

-- How far the goroutine of an entry has come.
abbrev pub rank : Phase → ℕ
rank ready = 0
rank firing = 0
rank waiting = 1
rank leaving = 2
rank removed = 3
rank ended = 4

-- The entry `p` has its channel closed, and its goroutine has come as far as `k`.
pub record IsPast (k p : ℕ) (s : Scheduler) : Type 0 where
  pub cell : Cell
  pub found : get_elem? s.cells p ≡ some cell
  pub closed : cell.stop_closed ≡ true
  pub far : k ≤ rank cell.phase

put_cell-IsPast :
    (k p : ℕ) (s : Scheduler) (c c' : Cell)
    → get_elem? s.cells p ≡ some c
    → c'.stop_closed ≡ true
    → k ≤ rank c'.phase
    → IsPast k p (put_cell p c' s)
put_cell-IsPast k p s c c' at closed far = record {
  cell = c';
  found = get_elem?-set s.cells p c c' at;
  closed = closed;
  far = far;
}

-- The plan has a next time, where the goroutine asks for one.
abbrev pub HasNext : Plan → Location → Time → Type 0
HasNext (cron e) loc now = (r : Result Time) × (Next.next e loc now ≡ some r)
HasNext _ loc now = Unit

begin_cron-IsPast :
    (o : Option (Result Time)) (p : ℕ) (c : Cell) (s : Scheduler) (r : Result Time)
    → get_elem? s.cells p ≡ some c
    → c.stop_closed ≡ true
    → o ≡ some r
    → IsPast 1 p (begin_cron o p c s)
unfolding begin_cron
begin_cron-IsPast none p c s r at closed h = absurd (ground arith)
begin_cron-IsPast (some (err e)) p c s r at closed h =
    put_cell-IsPast 1 p (record s { warnings = _ }) c _ at closed (omega arith)
begin_cron-IsPast (some (ok t)) p c s r at closed h =
    put_cell-IsPast 1 p s c _ at closed (omega arith)

begin_plan-IsPast :
    (plan : Plan) (now : Time) (p : ℕ) (c : Cell) (s : Scheduler)
    → get_elem? s.cells p ≡ some c
    → c.stop_closed ≡ true
    → HasNext plan s.loc now
    → IsPast 1 p (begin_plan plan now p c s)
unfolding begin_plan
begin_plan-IsPast (every i) now p c s at closed h =
    put_cell-IsPast 1 p s c _ at closed (omega arith)
begin_plan-IsPast (cron e) now p c s at closed h = begin_cron-IsPast _ p c s h.0 at closed h.1
begin_plan-IsPast (one_shot t) now p c s at closed h =
    put_cell-IsPast 1 p s c _ at closed (omega arith)

begins-IsPast :
    (phase : Phase) (now : Time) (p : ℕ) (c : Cell) (s : Scheduler)
    → get_elem? s.cells p ≡ some c
    → c.stop_closed ≡ true
    → c.phase ≡ phase
    → phase ≢ firing
    → HasNext c.plan s.loc now
    → IsPast 1 p (go_cell phase (begins now) p c s)
unfolding go_cell
begins-IsPast ready now p c s at closed e not_firing h =
    begin_plan-IsPast c.plan now p c s at closed h
begins-IsPast firing now p c s at closed e not_firing h = absurd (not_firing refl)
begins-IsPast waiting now p c s at closed e not_firing h = record {
  cell = c;
  found = at;
  closed = closed;
  far = rw e (omega arith);
}
begins-IsPast leaving now p c s at closed e not_firing h = record {
  cell = c;
  found = at;
  closed = closed;
  far = rw e (omega arith);
}
begins-IsPast removed now p c s at closed e not_firing h = record {
  cell = c;
  found = at;
  closed = closed;
  far = rw e (omega arith);
}
begins-IsPast ended now p c s at closed e not_firing h = record {
  cell = c;
  found = at;
  closed = closed;
  far = rw e (omega arith);
}

stays :
    (k p : ℕ) (c : Cell) (s : Scheduler) (phase : Phase)
    → get_elem? s.cells p ≡ some c
    → c.stop_closed ≡ true
    → c.phase ≡ phase
    → k ≤ rank phase
    → IsPast k p s
stays k p c s phase at closed e far = record {
  cell = c;
  found = at;
  closed = closed;
  far = rw e far;
}

if_closed :
    (k p : ℕ) (s s' : Scheduler) (b : Bool)
    → b ≡ true
    → IsPast k p s'
    → IsPast k p (if b then s' else s)
if_closed k p s s' true closed h = h
if_closed k p s s' false closed h = absurd (ground arith)

sees_stop-IsPast :
    (phase : Phase) (p : ℕ) (c : Cell) (s : Scheduler)
    → get_elem? s.cells p ≡ some c
    → c.stop_closed ≡ true
    → c.phase ≡ phase
    → 1 ≤ rank phase
    → IsPast 2 p (go_cell phase sees_stop p c s)
unfolding go_cell
sees_stop-IsPast waiting p c s at closed e far =
    if_closed 2 p s _ c.stop_closed closed (put_cell-IsPast 2 p s c _ at closed (omega arith))
sees_stop-IsPast phase p c s at closed e far = stays 2 p c s phase at closed e (omega arith)

removes-IsPast :
    (phase : Phase) (p : ℕ) (c : Cell) (s : Scheduler)
    → get_elem? s.cells p ≡ some c
    → c.stop_closed ≡ true
    → c.phase ≡ phase
    → 2 ≤ rank phase
    → IsPast 3 p (go_cell phase removes p c s)
unfolding go_cell
removes-IsPast leaving p c s at closed e far = record {
  cell = _;
  found = get_elem?-set s.cells p c _ at;
  closed = closed;
  far = omega arith;
}
removes-IsPast phase p c s at closed e far = stays 3 p c s phase at closed e (omega arith)

finishes-IsPast :
    (phase : Phase) (p : ℕ) (c : Cell) (s : Scheduler)
    → get_elem? s.cells p ≡ some c
    → c.stop_closed ≡ true
    → c.phase ≡ phase
    → 3 ≤ rank phase
    → IsPast 4 p (go_cell phase finishes p c s)
unfolding go_cell
finishes-IsPast removed p c s at closed e far = put_cell-IsPast 4 p s c _ at closed (omega arith)
finishes-IsPast phase p c s at closed e far = stays 4 p c s phase at closed e (omega arith)

go-IsPast :
    (k p : ℕ) (ev : GoEvent) (c : Cell) (s : Scheduler)
    → get_elem? s.cells p ≡ some c
    → IsPast k p (go_cell c.phase ev p c s)
    → IsPast k p (go ev p s)
unfolding go go_found
go-IsPast k p ev c s at h = rw at h

-- The goroutine of the entry `p` runs until it has closed `done`, its `select` taking the closed channel.
abbrev pub drive : Time → ℕ → Scheduler → Scheduler
drive now p s = go finishes p (go removes p (go sees_stop p (go (begins now) p s)))

ended-done : (p : ℕ) (s : Scheduler) → IsPast 4 p s → is_done (get_elem? s.cells p) ≡ true
ended-done p s h = rw h.found (ended_only h.cell.phase h.far)
  where
    ended_only :
        (phase : Phase) → 4 ≤ rank phase → is_done (some (record h.cell { phase = phase })) ≡ true
    ended_only ended far = refl
    ended_only _ far = absurd (omega arith)

pub drive-is_done :
    (now : Time) (p : ℕ) (c : Cell) (s : Scheduler)
    → get_elem? s.cells p ≡ some c
    → c.stop_closed ≡ true
    → c.phase ≢ firing
    → HasNext c.plan s.loc now
    → is_done (get_elem? (drive now p s).cells p) ≡ true
drive-is_done now p c s at closed not_firing h =
    let a =
      go-IsPast 1 p (begins now) c s at
        (begins-IsPast c.phase now p c s at closed refl not_firing h) in
    let b =
      go-IsPast 2 p sees_stop a.cell _ a.found
        (sees_stop-IsPast a.cell.phase p a.cell _ a.found a.closed refl a.far) in
    let d =
      go-IsPast 3 p removes b.cell _ b.found
        (removes-IsPast b.cell.phase p b.cell _ b.found b.closed refl b.far) in
    ended-done p _ (
      go-IsPast 4 p finishes d.cell _ d.found
        (finishes-IsPast d.cell.phase p d.cell _ d.found d.closed refl d.far))
