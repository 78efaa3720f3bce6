-- ===== src/Scheduler/Rounds/Skipped.antt =====
-- internal/core/scheduler.go: `fire` while a job of the name is in flight, under the skip policy.
use jobx.Prelude.{ℕ, ◌≡◌, ◌≢◌, refl, List, [], ◌∷◌, none, some, arith, get_elem?, get_elem?-set}
use jobx.Prelude.Maps.{lookup, lookup-delete}
use jobx.Text.{Text, text_discrete}
use jobx.Clock.{Time}
use jobx.Errors.{Error}
use jobx.Logs.{Warning}
use jobx.Options.{conflict_skip}
use jobx.InFlight.{ids_of}
use jobx.Dispatcher.State.{Meanwhile}
use jobx.Dispatcher.Submit.Refused.{InFlightAs, Yields-fails, submit_with_options-Yields}
use jobx.Scheduler.{Plan, every, cron, one_shot, Phase, ready, waiting, leaving, Cell, Scheduler}
use jobx.Scheduler.Rounds.{fire, timer_plan, timer, removes, go_cell, go_found, go}

-- The goroutine of the entry has left its loop, and has logged the failed submission of `name` after
-- the warnings `l`.
pub record HasLeft (p : ℕ) (id name : Text) (l : List Warning) (s : Scheduler) : Type 0 where
  pub cell : Cell
  pub found : get_elem? s.cells p ≡ some cell
  pub phase : cell.phase ≡ leaving
  pub same : cell.id ≡ id
  pub error : Error
  pub logged : s.warnings ≡ Warning.not_submitted name error ∷ l

fire-HasLeft :
    (m : Meanwhile) (next : Phase) (p : ℕ) (c c' : Cell) (s : Scheduler)
    → get_elem? s.cells p ≡ some c
    → InFlightAs c'.name s.dispatcher
    → HasLeft p c'.id c'.name s.warnings (fire m next p c' s)
unfolding fire
fire-HasLeft m next p c c' s at busy =
    let (e, d, failed) =
      Yields-fails _ (submit_with_options-Yields m c'.name [] [] s.dispatcher busy) in
    rw failed (record {
      cell = record c' { phase = leaving };
      found = get_elem?-set s.cells p c _ at;
      phase = refl;
      same = refl;
      error = e;
      logged = refl;
    })

timer_plan-HasLeft :
    (plan : Plan) (m : Meanwhile) (now : Time) (p : ℕ) (c : Cell) (s : Scheduler)
    → get_elem? s.cells p ≡ some c
    → InFlightAs c.name s.dispatcher
    → HasLeft p c.id c.name s.warnings (timer_plan plan m now p c s)
unfolding timer_plan
timer_plan-HasLeft (every i) m now p c s at busy = fire-HasLeft m waiting p c _ s at busy
timer_plan-HasLeft (cron e) m now p c s at busy = fire-HasLeft m ready p c c s at busy
timer_plan-HasLeft (one_shot t) m now p c s at busy = fire-HasLeft m leaving p c c s at busy

go-HasLeft :
    (m : Meanwhile) (now : Time) (p : ℕ) (c : Cell) (s : Scheduler)
    → get_elem? s.cells p ≡ some c
    → c.phase ≡ waiting
    → InFlightAs c.name s.dispatcher
    → HasLeft p c.id c.name s.warnings (go (timer m now) p s)
unfolding go go_found go_cell
go-HasLeft m now p c s at waits busy =
    simp (at, waits) (timer_plan-HasLeft c.plan m now p c s at busy)

removes-lookup :
    (p : ℕ) (id name : Text) (l : List Warning) (s : Scheduler)
    → HasLeft p id name l s
    → lookup text_discrete id (go removes p s).entries ≡ none
unfolding go go_found go_cell
removes-lookup p id name l s left =
    rw (left.found, left.phase, left.same)
      (ground (arith, lookup-delete text_discrete id id s.entries))

-- If the timer of a periodic or of a one-shot entry fires while, under the skip policy, a job of its
-- name is in flight, its goroutine logs one warning that the submission failed and leaves its loop,
-- and the next thing that it does takes the entry off the map: the schedule is over.
pub go_timer-skipped :
    (m : Meanwhile) (now : Time) (p : ℕ) (c : Cell) (s : Scheduler)
    → get_elem? s.cells p ≡ some c
    → c.phase ≡ waiting
    → s.dispatcher.cfg.conflict ≡ conflict_skip
    → ids_of c.name s.dispatcher.in_flight ≢ []
    → HasLeft p c.id c.name s.warnings (go (timer m now) p s)
      × (lookup text_discrete c.id (go removes p (go (timer m now) p s)).entries ≡ none)
go_timer-skipped m now p c s at waits skip busy =
    let left = go-HasLeft m now p c s at waits (skip, busy) in
    (left, removes-lookup p c.id c.name s.warnings (go (timer m now) p s) left)
