-- ===== src/Dispatcher/Pool/Works.antt =====
-- internal/core/worker.go: a round of a worker is a run of steps of the pool.
use jobx.Prelude.{
  ◌≡◌, refl, ◌∙◌, Bool, false, List, [], ◌∷◌, ◌++◌, Option, none, some, arith, All, Bool-cases, inl,
  inr,
}
use jobx.Job.{JobEntry}
use jobx.ReadyQueue.{
  receive, is_ready, PopRound, popped, ended, starved, pop_round, pop_wait, pop, after_pop,
  PopResult, got, stopped, idle,
}
use jobx.Dispatcher.State.{Dispatcher, Handler, Outcome, Reply, returns}
use jobx.Dispatcher.Steps.{metric, is_cancelled, get_ready, put_ready}
use jobx.Dispatcher.Run.{
  clock_now, hand_over, end_handler, execute, outcome_error, dispatch, run_entry, worked,
  worker_round,
}
use jobx.Dispatcher.Pool.{
  Worker, free, holds, runs, cleans, gone, Pool, Reach, here, pops, stops, skips, checks, begins,
  misses, abandons, rechecks, concludes, cleans_up, note_taken,
}
use jobx.Dispatcher.Pool.Paths.{
  pool, Reach-trans, one_move, AreSteps, fields-Quiet, still_step, receive-AreSteps,
}

module _ (es : List JobEntry) (ws vs : List Worker) where
  -- The pool with one worker in view.
  abbrev at : Dispatcher → Worker → Pool
  at d w = pool d es (ws ++ (w ∷ vs))

  same_mark :
      (e : JobEntry) (o : Outcome) (d : Dispatcher)
      → is_cancelled e.job.id (end_handler o e.job d) ≡ is_cancelled e.job.id d
  unfolding is_cancelled
  same_mark e o d = refl

  execute-Reach :
      (f : Dispatcher → Dispatcher) (h : Handler) (e : JobEntry) (d : Dispatcher)
      → AreSteps f
      → Reach (at d (runs e)) (at (execute f h e d) (cleans e))
  unfolding execute
  execute-Reach f h e d steps =
      let d₁ = f (hand_over e.job d) in
      let d₂ = end_handler (h e.job) e.job d₁ in
      let path =
        Reach-trans
          (Reach-trans
            (still_step
              (fields-Quiet d (hand_over e.job d) refl (omega arith) refl refl refl refl refl))
            (steps (hand_over e.job d) es (ws ++ (runs e ∷ vs))))
          (still_step (fields-Quiet d₁ d₂ refl (omega arith) refl refl refl refl refl)) in
      elim (Bool-cases (is_cancelled e.job.id d₁)) [
        | inl yes_cancelled ↦
            rw (yes_cancelled, execute)
              (Reach-trans path
                (one_move (abandons ws vs e refl (same_mark e (h e.job) d₁ ∙ yes_cancelled))))
        | inr not_cancelled ↦
            rw (not_cancelled, execute)
              (Reach-trans
                (Reach-trans path
                  (one_move (rechecks ws vs e refl (same_mark e (h e.job) d₁ ∙ not_cancelled))))
                (one_move (concludes ws vs e (outcome_error (h e.job)) (clock_now d) refl)))
      ]

  dispatch-Reach :
      (o : Option Handler) (f : Dispatcher → Dispatcher) (e : JobEntry) (d : Dispatcher)
      → AreSteps f
      → Reach (at d (runs e)) (at (dispatch o f e d) (cleans e))
  unfolding dispatch
  dispatch-Reach none f e d steps = one_move (misses ws vs e refl)
  dispatch-Reach (some h) f e d steps = execute-Reach f h e d steps

  note_taken-is_cancelled :
      (e : JobEntry) (d : Dispatcher)
      → is_cancelled e.job.id (note_taken e d) ≡ is_cancelled e.job.id d
  unfolding is_cancelled metric
  note_taken-is_cancelled e d = refl

  -- `runEntry`, with complete steps of the others while the handler runs, is a run of steps.
  run_entry-Reach :
      (f : Dispatcher → Dispatcher) (e : JobEntry) (d : Dispatcher)
      → AreSteps f
      → Reach (at d (holds e)) (at (run_entry f e d) free)
  unfolding run_entry
  run_entry-Reach f e d steps = elim (Bool-cases (is_cancelled e.job.id d)) [
    | inl yes_cancelled ↦
        rw (note_taken-is_cancelled e d, yes_cancelled, run_entry)
          (one_move (skips ws vs e refl yes_cancelled))
    | inr not_cancelled ↦
        rw (note_taken-is_cancelled e d, not_cancelled, run_entry)
          (Reach-trans
            (Reach-trans (one_move (checks ws vs e refl not_cancelled))
              (one_move (begins ws vs e refl)))
            (Reach-trans (dispatch-Reach _ f e _ steps) (one_move (cleans_up ws vs e refl))))
  ]

  -- Where the worker stands after `pop`, and after the round.
  abbrev stands : PopResult → Worker
  stands (got e) = holds e
  stands stopped = gone
  stands idle = free

  abbrev pub left : Reply Bool → Worker
  left (returns false) = gone
  left _ = free

  abbrev PopSteps : Dispatcher → Dispatcher × PopResult → Type 0
  PopSteps d r = Reach (at d free) (at r.0 (stands r.1))

  round-PopSteps :
      (r : PopRound) (d : Dispatcher) (rest : Dispatcher × PopResult)
      → pop_round d.ready ≡ r
      → PopSteps d rest
      → PopSteps d (after_pop get_ready put_ready r d rest)
  round-PopSteps (popped e q) d rest h p = one_move (pops ws vs e q refl h)
  round-PopSteps ended d rest h p = one_move (stops ws vs refl h)
  round-PopSteps starved d rest h p = p

  pop_wait-PopSteps :
      (wakes : List (Dispatcher → Dispatcher)) (d : Dispatcher)
      → All AreSteps wakes
      → PopSteps d (pop_wait get_ready put_ready wakes d)
  unfolding pop_wait
  pop_wait-PopSteps [] d h = here
  pop_wait-PopSteps (f ∷ wakes) d h =
      let first = h.0 d es (ws ++ (free ∷ vs)) in
      let d' = put_ready (receive (get_ready (f d))) (f d) in
      elim (Bool-cases (is_ready (get_ready (f d)))) [
        | inl ready ↦
            rw (ready, pop_wait)
              (Reach-trans (Reach-trans first (receive-AreSteps (f d) es (ws ++ (free ∷ vs))))
                (round-PopSteps _ d' _ refl (pop_wait-PopSteps wakes d' h.1)))
        | inr not_ready ↦
            rw (not_ready, pop_wait) (Reach-trans first (pop_wait-PopSteps wakes (f d) h.1))
      ]

  worked-Reach :
      (f : Dispatcher → Dispatcher) (d : Dispatcher) (r : Dispatcher × PopResult)
      → AreSteps f
      → PopSteps d r
      → Reach (at d free) (at (worked f r).1 (left (worked f r).0))
  unfolding worked
  worked-Reach f d (d', got e) steps p = Reach-trans p (run_entry-Reach f e d' steps)
  worked-Reach f d (d', stopped) steps p = p
  worked-Reach f d (d', idle) steps p = p

-- A round of `worker`, with whatever complete steps of the others while it waits for an entry and while
-- the handler runs, is a run of steps of the pool, after which the worker is free again, or gone if the
-- round tells it to stop.
pub worker_round-Reach :
    (wakes : List (Dispatcher → Dispatcher)) (f : Dispatcher → Dispatcher) (d : Dispatcher)
    (es : List JobEntry) (ws vs : List Worker)
    → All AreSteps wakes
    → AreSteps f
    → Reach
        (pool d es (ws ++ (free ∷ vs)))
        (pool (worker_round wakes f d).1 es (ws ++ (left es ws vs (worker_round wakes f d).0 ∷ vs)))
unfolding worker_round pop
worker_round-Reach wakes f d es ws vs h steps =
    worked-Reach es ws vs f d _ steps
      (round-PopSteps es ws vs _ d _ refl (pop_wait-PopSteps es ws vs wakes d h))
