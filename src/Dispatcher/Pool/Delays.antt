-- ===== src/Dispatcher/Pool/Delays.antt =====
-- internal/core/dispatcher.go: a round of the delay loop is a run of steps of the pool.
use mathlib.Core.List.Perm
use jobx.Prelude.{
  ℕ, zero, suc, ◌≡◌, refl, sym, ap, ◌∙◌, true, false, List, [], ◌∷◌, Option, none, some, arith, All,
  Bool-cases, inl, inr, length, length-perm, List-cases, ◌-◌,
}
use jobx.Clock.{Time}
use jobx.Job.{JobEntry}
use jobx.ReadyQueue.{PushResult, pushed, failed, blocked}
use jobx.Heap
use jobx.Heap.Swaps.{swap-perm, get_elem?-lt}
use jobx.Heap.Order.{down-perm}
use jobx.Status
use jobx.Dispatcher.State.{Dispatcher, Meanwhile, returns, blocks, return}
use jobx.Dispatcher.Steps.{run_key, mark_status, release_job, is_cancelled}
use jobx.Dispatcher.Delay.{
  is_due_now, take_delayed, note_queued, moved, move_due, move_taken, pop_due, drop_delayed,
  drain_rounds, drain_delayed, DelayWake, on_signal, on_stop, on_timer, delay_round,
}
use jobx.Dispatcher.Pool.{Worker, Reach, here, takes}
use jobx.Dispatcher.Pool.Paths.{
  pool, Reach-trans, one_move, AreSteps, MeanwhileSteps, fields-Quiet, still_step,
  mark_status-AreSteps, release_job-AreSteps, delete_stored-AreSteps, metric-AreSteps, Covers,
  drop_step, CallSteps, placed-CallSteps, waits-CallSteps, either-CallSteps, over-CallSteps,
  then_call-CallSteps,
}
use jobx.Dispatcher.Pool.Submits.{PushSteps, push-PushSteps}

-- `heap.Pop` gives nothing only where nothing is.
pop-nothing : (l : List JobEntry) → (Heap.pop run_key l).0 ≡ none → (Heap.pop run_key l).1 ≡ l
unfolding Heap.pop Heap.down Heap.down_loop Heap.swap
pop-nothing [] h = refl
pop-nothing (x ∷ l) h =
    let n = suc (length l) - 1 in
    let swapped = Heap.swap (x ∷ l) 0 n in
    let m = (Heap.down run_key swapped 0 n).0 in
    let size : length m ≡ suc (length l) =
      length-perm (Perm.trans (down-perm run_key n swapped 0) (swap-perm (x ∷ l) 0 n)) in
    let (e, found) = get_elem?-lt m (length m - 1) (omega (arith, size)) in
    absurd (ground (arith, sym h ∙ found))

note_queued-AreSteps : (e : JobEntry) → AreSteps (note_queued e)
unfolding note_queued
note_queued-AreSteps e d es ws =
    Reach-trans (mark_status-AreSteps e.job.id Status.queued d es ws) (metric-AreSteps _ tt _ es ws)

-- What is done with an entry that was taken off the heap, when nothing is left to place.
cancelled-AreSteps :
    (e : JobEntry)
    → AreSteps (λ d. release_job e.job.name e.job.id (mark_status e.job.id Status.cancelled d))
cancelled-AreSteps e d es ws =
    Reach-trans (mark_status-AreSteps e.job.id Status.cancelled d es ws)
      (release_job-AreSteps e.job.name e.job.id _ es ws)

module _ (es : List JobEntry) (ws : List Worker) where
  moved-Covers :
      (f : Dispatcher → Dispatcher) (e : JobEntry) (d : Dispatcher) (r : Dispatcher × PushResult)
      → AreSteps f
      → PushSteps e es ws d r
      → Covers e es ws (e ∷ es) es d (moved f e r)
  unfolding moved
  moved-Covers f e d (d', blocked) steps p = p
  moved-Covers f e d (d', pushed) steps p =
      Reach-trans p (Reach-trans (steps d' es ws) (note_queued-AreSteps e _ es ws))
  moved-Covers f e d (d', failed x) steps p =
      Reach-trans p
        (Reach-trans drop_step (Reach-trans (steps d' es ws) (note_queued-AreSteps e _ es ws)))

  move_due-Covers :
      (m : Meanwhile) (e : JobEntry) (d : Dispatcher)
      → MeanwhileSteps m
      → Covers e es ws (e ∷ es) es d (move_due m e d)
  unfolding move_due
  move_due-Covers m e d h = elim (Bool-cases (is_cancelled e.job.id d)) [
    | inl yes_cancelled ↦
        rw (yes_cancelled, move_due) (Reach-trans (cancelled-AreSteps e d (e ∷ es) ws) drop_step)
    | inr not_cancelled ↦
        rw (not_cancelled, move_due)
          (moved-Covers m.after_push e d _ h.after_push
            (push-PushSteps e es ws false m.wakes d h.wakes))
  ]

  take-Reach :
      (d : Dispatcher) (e : JobEntry)
      → (take_delayed d).0 ≡ some e
      → Reach (pool d es ws) (pool (take_delayed d).1 (e ∷ es) ws)
  take-Reach d e h = one_move (takes e (take_delayed d).1 (ap (λ o. (o, (take_delayed d).1)) h))

  -- What the heap leaves when it gives nothing.
  still-Reach :
      (d : Dispatcher)
      → (take_delayed d).0 ≡ none
      → Reach (pool d es ws) (pool (take_delayed d).1 es ws)
  unfolding take_delayed
  still-Reach d h = still_step (
      fields-Quiet d (take_delayed d).1 refl (omega arith) refl refl (pop-nothing d.delay_heap h)
        refl refl)

  taken-CallSteps :
      (m : Meanwhile) (d : Dispatcher) (o : Option JobEntry)
      → MeanwhileSteps m
      → (take_delayed d).0 ≡ o
      → CallSteps es ws d (move_taken m (o, (take_delayed d).1))
  unfolding move_taken
  taken-CallSteps m d none h e = over-CallSteps es ws d _ tt (still-Reach d e)
  taken-CallSteps m d (some entry) h e =
      placed-CallSteps es ws d _ entry _ (take-Reach d entry e) (move_due-Covers m entry _ h)

  -- `popDue`.
  pop_due-CallSteps :
      (rounds : List Meanwhile) (now : Time) (d : Dispatcher)
      → All MeanwhileSteps rounds
      → CallSteps es ws d (pop_due rounds now d)
  unfolding pop_due
  pop_due-CallSteps [] now d h =
      either-CallSteps es ws d (is_due_now now d) _ _ (waits-CallSteps es ws d)
        (over-CallSteps es ws d d tt here)
  pop_due-CallSteps (m ∷ rounds) now d h = elim (Bool-cases (is_due_now now d)) [
    | inl due ↦
        rw (due, pop_due)
          (then_call-CallSteps es ws d _ _ (taken-CallSteps m d _ h.0 refl)
            λ _ d'. pop_due-CallSteps rounds now d' h.1)
    | inr not_due ↦ rw (not_due, pop_due) (over-CallSteps es ws d d tt here)
  ]

  drop_delayed-Reach :
      (d : Dispatcher) (o : Option JobEntry)
      → (take_delayed d).0 ≡ o
      → Reach (pool d es ws) (pool (drop_delayed (o, (take_delayed d).1)) es ws)
  unfolding drop_delayed
  drop_delayed-Reach d none e = still-Reach d e
  drop_delayed-Reach d (some entry) e = Reach-trans (take-Reach d entry e) (
      Reach-trans (delete_stored-AreSteps entry.job.id _ (entry ∷ es) ws) (
        Reach-trans (metric-AreSteps _ tt _ (entry ∷ es) ws)
          (Reach-trans (cancelled-AreSteps entry _ (entry ∷ es) ws) drop_step)))

  drain_rounds-Reach :
      (fuel : ℕ) (d : Dispatcher) → Reach (pool d es ws) (pool (drain_rounds fuel d) es ws)
  unfolding drain_rounds
  drain_rounds-Reach zero d = here
  drain_rounds-Reach (suc fuel) d = elim (List-cases d.delay_heap) [
    | inl none_left ↦ simp (none_left, drain_rounds) here
    | inr (x, l, some_left) ↦
        simp (some_left, drain_rounds)
          (Reach-trans (drop_delayed-Reach d _ refl) (drain_rounds-Reach fuel _))
  ]

-- What the loop does before each of its waits, with complete steps of the others.
abbrev pub RoundSteps : DelayWake → Type 0
RoundSteps on_signal = Unit
RoundSteps on_stop = Unit
RoundSteps (on_timer now rounds) = All MeanwhileSteps rounds

-- A round of the delay loop, with whatever complete steps of the others while it pushes, is a run of
-- steps of the pool, whichever of its cases fires; an entry that it takes off the heap is placed or
-- dropped before the round is over.
pub delay_round-CallSteps :
    (w : DelayWake) (d : Dispatcher) (es : List JobEntry) (ws : List Worker)
    → RoundSteps w
    → CallSteps es ws d (delay_round w d)
unfolding delay_round drain_delayed
delay_round-CallSteps on_signal d es ws h =
    either-CallSteps es ws d d.signal (returns true, record d { signal = false }) (blocks, d)
      (over-CallSteps es ws d _ true
        (still_step (fields-Quiet d _ refl (omega arith) refl refl refl refl refl)))
      (waits-CallSteps es ws d)
delay_round-CallSteps on_stop d es ws h =
    either-CallSteps es ws d d.stopped (returns false, drain_delayed d) (blocks, d)
      (over-CallSteps es ws d _ false (drain_rounds-Reach es ws (length d.delay_heap) d))
      (waits-CallSteps es ws d)
delay_round-CallSteps (on_timer now rounds) d es ws h =
    then_call-CallSteps es ws d (pop_due rounds now d) (λ _. return true)
      (pop_due-CallSteps es ws rounds now d h) (λ _ d'. over-CallSteps es ws d' d' true here)
