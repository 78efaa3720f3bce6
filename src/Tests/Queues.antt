-- ===== src/Tests/Queues.antt =====
-- internal/core/ready_queue.go and the delay heap at concrete inputs.
use jobx.Prelude.{zero, suc, ◌≡◌, refl, true, false, List, [], ◌∷◌, some, arith}
use jobx.Job.{JobEntry}
use jobx.Heap
use jobx.Heap.Bags
use jobx.Heap.Bags.{HeapOp, inserts, takes, removes, Promises, run-Promises}
use mathlib.Core.Quot
use jobx.Heap.Laws.{IsOrdered}
use jobx.ReadyQueue.{
  ReadyQueue, wake, push, push_wait, push_round, pop, pop_round, close, ended, pushed,
}
use jobx.ReadyQueue.Bounds.{IsBounded, pop-IsBounded}
use jobx.ReadyQueue.Order.{
  QueueOp, pushes, pops, removes, closes, run, start, IsFifo, run-start-IsFifo, drain, drain-close,
}
use jobx.Dispatcher.Steps.{run_key}
use jobx.Tests.Samples.{entry_a, entry_b, entry_at, id_a, id_b, mail, queue_of}

-- The queue as a world of its own.
abbrev itself : ReadyQueue → ReadyQueue
itself q = q

abbrev replaced : ReadyQueue → ReadyQueue → ReadyQueue
replaced q w = q

abbrev full : ReadyQueue
full = queue_of (entry_a ∷ entry_b ∷ [])

abbrev ops : List QueueOp
ops = pushes entry_a true ∷ pushes entry_b false ∷ pops ∷ removes id_b ∷ closes ∷ []

run-start-IsFifo_example : IsFifo (run ops (start 2))
run-start-IsFifo_example = run-start-IsFifo 2 ops

drain-close_example : drain 3 (close full) ≡ (entry_a ∷ entry_b ∷ [], ended)
drain-close_example = drain-close full

-- Another goroutine takes an entry while the pusher waits.
abbrev taken_one : ReadyQueue → ReadyQueue
taken_one q = (pop itself replaced [] q).0

pushed_late :
    push itself replaced (wake taken_one ∷ []) full (entry_at id_a mail 3) false
    ≡ (record (queue_of (entry_b ∷ entry_at id_a mail 3 ∷ [])) { notify = true }, pushed)
unfolding push push_wait pop pop_round push_round
pushed_late = refl

taken_one-IsBounded : (q : ReadyQueue) → IsBounded q → IsBounded (taken_one q)
taken_one-IsBounded q h = pop-IsBounded itself replaced (λ q w. refl) [] q tt h

-- A heap of three entries, and one out of order.
abbrev heap : List JobEntry
heap = entry_at id_a mail 2 ∷ entry_at id_b mail 5 ∷ entry_at id_b mail 3 ∷ []

popped_heap :
    Heap.pop run_key heap
    ≡ (some (entry_at id_a mail 2), entry_at id_b mail 3 ∷ entry_at id_b mail 5 ∷ [])
unfolding Heap.pop Heap.down Heap.down_loop Heap.swap
popped_heap = refl

heap-IsOrdered : IsOrdered run_key heap
heap-IsOrdered zero p q = absurd (omega arith)
heap-IsOrdered (suc zero) p q = omega arith
heap-IsOrdered (suc (suc zero)) p q = omega arith
heap-IsOrdered (suc (suc (suc c))) p q = absurd (omega arith)

abbrev heap_ops : List (HeapOp run_key)
heap_ops = takes ∷ inserts entry_a ∷ removes 1 ∷ takes ∷ []

run-Promises_example :
    Promises run_key heap_ops
      (Quot.mk heap)
      (Bags.run run_key heap_ops heap).0
      (Quot.mk (Bags.run run_key heap_ops heap).1)
run-Promises_example = run-Promises run_key heap_ops heap heap-IsOrdered
