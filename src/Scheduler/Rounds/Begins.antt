-- ===== src/Scheduler/Rounds/Begins.antt =====
-- internal/core/scheduler.go: how the goroutine of an entry of `Cron` begins.
use jobx.Prelude.{ℕ, ◌≡◌, some, get_elem?, get_elem?-set}
use jobx.Clock.{Time}
use jobx.Errors.{Result, ok, err}
use jobx.Cron.{Expr}
use jobx.Cron.Next
use jobx.Scheduler.{Plan, cron, ready, waiting, leaving, Cell, Scheduler}
use jobx.Scheduler.Rounds.{begins, begin_cron, begin_plan, go_cell, go_found, go}

-- The cell of the entry, when its goroutine knows the next time.
abbrev pub begun : Result Time → Cell → Cell
begun (ok t) c = record c { next = t; phase = waiting }
begun (err e) c = record c { phase = leaving }

begin_cron-begun :
    (r : Result Time) (p : ℕ) (c : Cell) (s : Scheduler)
    → get_elem? s.cells p ≡ some c
    → get_elem? (begin_cron (some r) p c s).cells p ≡ some (begun r c)
unfolding begin_cron
begin_cron-begun (ok t) p c s at = get_elem?-set s.cells p c _ at
begin_cron-begun (err e) p c s at = get_elem?-set s.cells p c _ at

begin_plan-begun :
    (plan : Plan) (e : Expr) (r : Result Time) (now : Time) (p : ℕ) (c : Cell) (s : Scheduler)
    → plan ≡ cron e
    → Next.next e s.loc now ≡ some r
    → get_elem? s.cells p ≡ some c
    → get_elem? (begin_plan plan now p c s).cells p ≡ some (begun r c)
unfolding begin_plan
begin_plan-begun plan e r now p c s same h at = rw (same, h) (begin_cron-begun r p c s at)

-- The goroutine asks for the next time of its expression.
pub go_begins-begun :
    (e : Expr) (r : Result Time) (now : Time) (p : ℕ) (c : Cell) (s : Scheduler)
    → get_elem? s.cells p ≡ some c
    → c.phase ≡ ready
    → c.plan ≡ cron e
    → Next.next e s.loc now ≡ some r
    → get_elem? (go (begins now) p s).cells p ≡ some (begun r c)
unfolding go go_found go_cell
go_begins-begun e r now p c s at fresh plan h =
    simp (at, fresh) (begin_plan-begun c.plan e r now p c s plan h at)
