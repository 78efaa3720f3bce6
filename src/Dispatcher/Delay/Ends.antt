-- ===== src/Dispatcher/Delay/Ends.antt =====
-- internal/core/dispatcher.go: what becomes of the delayed jobs at the shutdown.
use mathlib.Core.List.{Perm, perm_append_singleton}
use mathlib.Core.List.Perm
use jobx.Prelude.{
  ◌++◌, sym, ◌∙◌, ℕ, zero, suc, ◌≤◌, ◌<◌, ◌≡◌, refl, ap, true, false, List, [], ◌∷◌, Option, none,
  some, arith, length, length-perm, ltb,
}
use jobx.Errors.{ok, err_shutting_down}
use jobx.Job.{JobEntry}
use jobx.ReadyQueue.{push_round, push, failed}
use jobx.Heap
use jobx.Heap.Laws.{IsOrdered, pop-Pops}
use jobx.Status.{Status}
use jobx.Status
use jobx.Status.Table.{job_status-mark_status}
use jobx.Metrics.{MetricEvent}
use jobx.Dispatcher.State.{Dispatcher, alone}
use jobx.Dispatcher.Steps.{
  run_key, mark_status, metric, release_job, delete_stored, is_cancelled, get_ready, put_ready,
}
use jobx.Dispatcher.Delay.{
  take_delayed, drop_delayed, drain_rounds, drain_delayed, move_due, moved, note_queued,
}

drop_delayed-heap :
    (o : Option JobEntry) (d : Dispatcher) → (drop_delayed (o, d)).delay_heap ≡ d.delay_heap
unfolding drop_delayed mark_status metric release_job delete_stored
drop_delayed-heap none d = refl
drop_delayed-heap (some e) d = ground arith

drop_delayed-events :
    (e : JobEntry) (d : Dispatcher)
    → (drop_delayed (some e, d)).events ≡ MetricEvent.dropped e.job.name ∷ d.events
unfolding drop_delayed mark_status metric release_job delete_stored
drop_delayed-events e d = ground arith

-- The reports of entries that are dropped.
abbrev pub dropped_all : List JobEntry → List MetricEvent
dropped_all [] = []
dropped_all (e ∷ l) = MetricEvent.dropped e.job.name ∷ dropped_all l

dropped_all-append :
    (l : List JobEntry) (e : JobEntry) (events : List MetricEvent)
    → dropped_all (l ++ (e ∷ [])) ++ events
      ≡ dropped_all l ++ (MetricEvent.dropped e.job.name ∷ events)
dropped_all-append [] e events = refl
dropped_all-append (f ∷ l) e events =
    ap (λ m. MetricEvent.dropped f.job.name ∷ m) (dropped_all-append l e events)

-- What `drainDelayed` achieves: the heap is empty, and each entry of it was reported as dropped, once.
pub record Drains (d d' : Dispatcher) : Type 0 where
  pub empty : d'.delay_heap ≡ []
  pub entries : List JobEntry
  pub same : Perm entries d.delay_heap
  pub reported : d'.events ≡ dropped_all entries ++ d.events

-- What a round leaves of the heap, and what it reports.
record Drops (d d' : Dispatcher) : Type 0 where
  ordered : IsOrdered run_key d'.delay_heap
  shorter : suc (length d'.delay_heap) ≡ length d.delay_heap
  entry : JobEntry
  reported : d'.events ≡ MetricEvent.dropped entry.job.name ∷ d.events
  same : Perm (entry ∷ d'.delay_heap) d.delay_heap

round-Drops :
    (d : Dispatcher)
    → 0 < length d.delay_heap
    → IsOrdered run_key d.delay_heap
    → Drops d (drop_delayed (take_delayed d))
unfolding take_delayed
round-Drops d some_left ordered =
    let p = pop-Pops run_key d.delay_heap some_left ordered in
    let left = record d { delay_heap = (Heap.pop run_key d.delay_heap).1 } in
    let taken : take_delayed d ≡ (some p.entry, left) = ap (λ o. (o, left)) p.first in
    rw taken (record {
      ordered = rw (drop_delayed-heap (some p.entry) left) p.ordered;
      shorter = rw (drop_delayed-heap (some p.entry) left) (length-perm p.same);
      entry = p.entry;
      reported = drop_delayed-events p.entry left;
      same = rw (drop_delayed-heap (some p.entry) left) p.same;
    })

drain_rounds-suc :
    (fuel : ℕ) (d : Dispatcher)
    → 0 < length d.delay_heap
    → drain_rounds (suc fuel) d ≡ drain_rounds fuel (drop_delayed (take_delayed d))
unfolding drain_rounds
drain_rounds-suc fuel d some_left = ground arith

drain_rounds-zero : (d : Dispatcher) → drain_rounds zero d ≡ d
unfolding drain_rounds
drain_rounds-zero d = refl

empty_of_length : {A : Type 0} (l : List A) → 0 ≡ length l → l ≡ []
empty_of_length [] h = refl
empty_of_length (x ∷ l) h = absurd (omega arith)

drain_rounds-Drains :
    (fuel : ℕ) (d : Dispatcher)
    → fuel ≡ length d.delay_heap
    → IsOrdered run_key d.delay_heap
    → Drains d (drain_rounds fuel d)
drain_rounds-Drains zero d size ordered =
    let empty = empty_of_length d.delay_heap size in
    rw (drain_rounds-zero d)
      (record { empty = empty; entries = []; same = rw empty (Perm.refl []); reported = refl })
drain_rounds-Drains (suc fuel) d size ordered =
    let r = round-Drops d (omega (arith, size)) ordered in
    let t =
      drain_rounds-Drains fuel (drop_delayed (take_delayed d)) (omega (arith, r.shorter, size))
        r.ordered in
    rw (drain_rounds-suc fuel d (omega (arith, size))) (record {
      empty = t.empty;
      entries = t.entries ++ (r.entry ∷ []);
      same =
          Perm.trans (perm_append_singleton r.entry t.entries)
            (Perm.trans (Perm.cons r.entry t.same) r.same);
      reported =
          t.reported
          ∙ ap (λ l. dropped_all t.entries ++ l) r.reported
          ∙ sym (dropped_all-append t.entries r.entry d.events);
    })

-- `drainDelayed` ends with an empty heap, and what it reports is that each entry of the heap was
-- dropped, each once, if the heap was in order.
pub drain_delayed-empties :
    (d : Dispatcher) → IsOrdered run_key d.delay_heap → Drains d (drain_delayed d)
unfolding drain_delayed
drain_delayed-empties d ordered = drain_rounds-Drains (length d.delay_heap) d refl ordered

-- When the queue is full and has been closed, and no other goroutine runs meanwhile, the round of
-- `popDue` that moves a job that is not cancelled leaves the queue as it is and reports the job as
-- queued all the same.
pub move_due-lost :
    (entry : JobEntry) (d : Dispatcher)
    → is_cancelled entry.job.id d ≡ false
    → d.ready.closed ≡ true
    → d.ready.capacity ≤ length d.ready.items
    → ((move_due alone entry d).1.ready ≡ d.ready)
      × (Status.job_status entry.job.id (move_due alone entry d).1.table ≡ ok Status.queued)
unfolding move_due push push_round moved note_queued mark_status metric
move_due-lost entry d live closed full =
    let no_room : ltb (length d.ready.items) d.ready.capacity ≡ false = ground arith in
    let unpushed : push get_ready put_ready [] d entry false ≡ (d, failed err_shutting_down) =
      rw (no_room, closed) refl in
    rw (live, move_due, unpushed) (refl, job_status-mark_status entry.job.id Status.queued d.table)
