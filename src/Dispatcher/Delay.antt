-- ===== src/Dispatcher/Delay.antt =====
-- internal/core/dispatcher.go: the delayed jobs, `popDue`, `drainDelayed` and `delayLoop`.
pub mod Ends
pub mod Due
use jobx.Prelude.{
  ℕ, zero, suc, Bool, true, false, not, List, [], ◌∷◌, Option, none, some, length, if◌then◌else◌,
  get_elem?,
}
use jobx.Clock.{Time, is_after}
use jobx.Job.{JobEntry}
use jobx.ReadyQueue.{Wake, PushResult, pushed, failed, blocked}
use jobx.ReadyQueue
use jobx.Heap
use jobx.Status
use jobx.Metrics.{MetricEvent, Delta}
use jobx.Dispatcher.State.{Dispatcher, Meanwhile, Call, Reply, returns, blocks, ◌>>◌, return}
use jobx.Dispatcher.Steps.{
  run_key, mark_status, metric, release_job, delete_stored, is_cancelled, get_ready, put_ready,
}

-- What the section under `delayMu` of a round of `popDue` finds: nothing that is due, or the entry
-- that it takes off the heap.
due_head : Option JobEntry → Time → Bool
due_head none now = false
due_head (some e) now = not (is_after e.job.run_at now)

unfoldable pub is_due_now : Time → Dispatcher → Bool
unfolding due_head
is_due_now now d = due_head (get_elem? d.delay_heap 0) now

-- `heap.Pop` on the heap of the dispatcher.
unfoldable pub take_delayed : Dispatcher → Option JobEntry × Dispatcher
take_delayed d =
    let (e, rest) = Heap.pop run_key d.delay_heap in (e, record d { delay_heap = rest })

-- The result of `push` is dropped.
unfoldable pub note_queued : JobEntry → Dispatcher → Dispatcher
note_queued entry d =
    metric (MetricEvent.queued entry.job.name Delta.plus_one)
      (mark_status entry.job.id Status.queued d)

unfoldable pub moved :
    (Dispatcher → Dispatcher) → JobEntry → Dispatcher × PushResult → Reply (Unit {0}) × Dispatcher
unfolding note_queued
moved others entry (d, blocked) = (blocks, d)
moved others entry (d, pushed) = (returns tt, note_queued entry (others d))
moved others entry (d, failed e) = (returns tt, note_queued entry (others d))

-- What `popDue` does with an entry that it took.
unfoldable pub move_due : Meanwhile → JobEntry → Call (Unit {0})
unfolding moved
move_due meanwhile entry d =
    if is_cancelled entry.job.id d
    then (
      returns tt,
      release_job entry.job.name entry.job.id (mark_status entry.job.id Status.cancelled d),
    )
    else moved meanwhile.after_push entry
        (ReadyQueue.push get_ready put_ready meanwhile.wakes d entry false)

unfoldable pub move_taken : Meanwhile → Option JobEntry × Dispatcher → Reply (Unit {0}) × Dispatcher
unfolding move_due
move_taken meanwhile (none, d) = (returns tt, d)
move_taken meanwhile (some entry, d) = move_due meanwhile entry d

-- `popDue` at the time of the wall clock, with what the others do meanwhile in each round. It still
-- runs if the rounds end while something is due.
unfoldable pub pop_due : List (Meanwhile) → Time → Call (Unit {0})
unfolding move_taken
pop_due [] now d = if is_due_now now d then (blocks, d) else (returns tt, d)
pop_due (meanwhile ∷ rounds) now d =
    let rest = pop_due rounds now in
    elim (is_due_now now d) [
      | false ↦ (returns tt, d)
      | true ↦ ((λ d'. move_taken meanwhile (take_delayed d')) >> rest) d
    ]

-- What `drainDelayed` does with an entry that it took.
unfoldable pub drop_delayed : Option JobEntry × Dispatcher → Dispatcher
drop_delayed (none, d) = d
drop_delayed (some entry, d) = release_job entry.job.name entry.job.id (
    mark_status entry.job.id Status.cancelled
      (metric (MetricEvent.dropped entry.job.name) (delete_stored entry.job.id d)))

-- The loop of `drainDelayed`; each round shortens the heap.
unfoldable pub drain_rounds : ℕ → Dispatcher → Dispatcher
drain_rounds zero d = d
drain_rounds (suc fuel) d = elim d.delay_heap [
  | [] ↦ d
  | _ ∷ _ ↦ drain_rounds fuel (drop_delayed (take_delayed d))
]

unfoldable pub drain_delayed : Dispatcher → Dispatcher
unfolding drain_rounds
drain_delayed d = drain_rounds (length d.delay_heap) d

-- What ends the `select` of a round of `delayLoop`.
pub data DelayWake : Type 0 where
  on_signal on_stop : DelayWake
  on_timer : Time → List (Meanwhile) → DelayWake

-- A round of `delayLoop`: whether it goes on. A case whose channel is not ready leaves it waiting. The
-- timer was set by an earlier look at the heap, so that it may fire when the head is not due, or when
-- a cancellation has emptied the heap: `popDue` then finds nothing.
unfoldable pub delay_round : DelayWake → Call Bool
delay_round on_signal d =
    if d.signal then (returns true, record d { signal = false }) else (blocks, d)
delay_round on_stop d = if d.stopped then (returns false, drain_delayed d) else (blocks, d)
delay_round (on_timer now rounds) d = (do pop_due rounds now; return true) d
