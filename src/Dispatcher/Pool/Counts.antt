-- ===== src/Dispatcher/Pool/Counts.antt =====
-- internal/core/dispatcher.go and internal/core/worker.go: how often an id stands in a list of entries
-- or of workers, and what the steps of the pool do to these numbers.
use jobx.Prelude.{
  ℕ, ◌+◌, ◌≤◌, ◌<◌, ◌≡◌, sym, ap, ◌∙◌, Bool, List, [], ◌∷◌, ◌++◌, some, arith, ite, length,
  Option-cases, inl, inr,
}
use jobx.Text.{Text, text_discrete}
use jobx.Job.{JobEntry}
use jobx.ReadyQueue.{
  ReadyQueue, remove_items, remove, push_round, added, pop_round, pop_items, popped,
}
use jobx.ReadyQueue
use jobx.Heap
use jobx.Heap.Laws.{IsOrdered, push_correct, pop-Pops, remove-Removes}
use jobx.Dispatcher.State.{Dispatcher}
use jobx.Dispatcher.Steps.{run_key, push_delayed}
use jobx.Dispatcher.Cancel.{index_of, remove_at, remove_delayed}
use jobx.Dispatcher.Cancel.Effects.{count_id, count_id-perm, index_of-some}
use jobx.Dispatcher.Delay.{take_delayed}
use jobx.Dispatcher.Pool.{Worker}

-- `1` for an entry of the id, `0` for another.
unfoldable pub one_of : Text → JobEntry → ℕ
one_of id e = ite (text_discrete e.job.id id) 1 0

-- What each worker counts for.
unfoldable pub total : (Worker → ℕ) → List Worker → ℕ
total f [] = 0
total f (w ∷ ws) = f w + total f ws

pub total-split :
    (f : Worker → ℕ) (ws vs : List Worker) (w : Worker)
    → total f (ws ++ (w ∷ vs)) ≡ total f ws + f w + total f vs
unfolding total
total-split f [] vs w = omega arith
total-split f (u ∷ ws) vs w = omega (arith, total-split f ws vs w)

pub count_id-cons :
    (id : Text) (e : JobEntry) (l : List JobEntry)
    → count_id id (e ∷ l) ≡ one_of id e + count_id id l
unfolding count_id one_of
count_id-cons id e l = ground arith

pub count_id-append :
    (id : Text) (k l : List JobEntry) → count_id id (k ++ l) ≡ count_id id k + count_id id l
unfolding count_id
count_id-append id [] l = omega arith
count_id-append id (e ∷ k) l = ground (arith, count_id-append id k l)

-- An entry that leaves the middle of a list.
pub count_id-split :
    (id : Text) (l ks ls : List JobEntry) (e : JobEntry)
    → l ≡ ks ++ (e ∷ ls)
    → count_id id l ≡ one_of id e + count_id id (ks ++ ls)
count_id-split id l ks ls e h = omega (
  arith,
  ap (count_id id) h,
  count_id-append id ks (e ∷ ls),
  count_id-append id ks ls,
  count_id-cons id e ls,
)

pub push_round-added :
    (id : Text) (q q' : ReadyQueue) (e : JobEntry) (drop : Bool)
    → push_round q e drop ≡ added q'
    → count_id id q'.items ≡ one_of id e + count_id id q.items
unfolding push_round ReadyQueue.signal count_id one_of
push_round-added id q q' e drop h =
    let end : q'.items ≡ q.items ++ (e ∷ []) = ground arith in
    omega (arith, ap (count_id id) end, count_id-append id q.items (e ∷ []))

pub pop_round-popped :
    (id : Text) (q q' : ReadyQueue) (e : JobEntry)
    → pop_round q ≡ popped e q'
    → count_id id q.items ≡ one_of id e + count_id id q'.items
unfolding pop_round pop_items ReadyQueue.signal count_id one_of
pop_round-popped id q q' e h = ground arith

remove_items-count_id :
    (id id' : Text) (l : List JobEntry) → count_id id (remove_items id' l).0 ≤ count_id id l
unfolding remove_items count_id
remove_items-count_id id id' [] = omega arith
remove_items-count_id id id' (e ∷ l) = ground (arith, remove_items-count_id id id' l)

pub remove-count_id :
    (id id' : Text) (q : ReadyQueue) → count_id id (remove id' q).0.items ≤ count_id id q.items
unfolding remove
remove-count_id id id' q = remove_items-count_id id id' q.items

-- What `cancelByIDLocked` leaves of the delay heap.
pub remove_delayed-fewer :
    (id id' : Text) (l : List JobEntry)
    → IsOrdered run_key l
    → IsOrdered run_key (remove_delayed id' l)
      × (count_id id (remove_delayed id' l) ≤ count_id id l)
unfolding remove_delayed remove_at
remove_delayed-fewer id id' l ordered = elim (Option-cases (index_of id' l)) [
  | inl e ↦ rw (e, remove_at) (ordered, omega arith)
  | inr (i, e) ↦
      let (entry, at, same, inside) = index_of-some id' l i e in
      let r = remove-Removes run_key l i inside ordered in
      rw (e, remove_at)
        (r.ordered, omega (arith, count_id-perm id r.same, count_id-cons id r.entry _))
]

pub push_delayed-count_id :
    (id : Text) (e : JobEntry) (d : Dispatcher)
    → IsOrdered run_key d.delay_heap
    → IsOrdered run_key (push_delayed e d).delay_heap
      × (count_id id (push_delayed e d).delay_heap ≡ one_of id e + count_id id d.delay_heap)
unfolding push_delayed
push_delayed-count_id id e d h =
    let (ordered, same) = push_correct run_key d.delay_heap e h in
    (ordered, count_id-perm id same ∙ count_id-cons id e d.delay_heap)

-- What `heap.Pop` takes off the delay heap.
pub record Takes (e : JobEntry) (d d' : Dispatcher) : Type 0 where
  pub ordered : IsOrdered run_key d'.delay_heap
  pub there : (id : Text) → count_id id d.delay_heap ≡ one_of id e + count_id id d'.delay_heap
  pub same : record d { delay_heap = d'.delay_heap } ≡ d'

-- An empty heap gives nothing.
pop-empty : (e : JobEntry) (l : List JobEntry) → (Heap.pop run_key l).0 ≡ some e → 0 < length l
unfolding Heap.pop Heap.down Heap.down_loop Heap.swap
pop-empty e [] h = absurd (ground arith)
pop-empty e (x ∷ l) h = omega arith

pub take_delayed-Takes :
    (e : JobEntry) (d d' : Dispatcher)
    → IsOrdered run_key d.delay_heap
    → take_delayed d ≡ (some e, d')
    → Takes e d d'
unfolding take_delayed
take_delayed-Takes e d d' ordered h =
    let rest : (Heap.pop run_key d.delay_heap).1 ≡ d'.delay_heap = ap (λ r. r.1.delay_heap) h in
    let first : (Heap.pop run_key d.delay_heap).0 ≡ some e = ap (λ r. r.0) h in
    let p = pop-Pops run_key d.delay_heap (pop-empty e d.delay_heap first) ordered in
    let same : p.entry ≡ e = ground (arith, p.first) in
    record {
      ordered = rw (← rest) p.ordered;
      there = λ id.
          rw (← rest, ← same) (omega (arith, count_id-perm id p.same, count_id-cons id p.entry _));
      same = ap (λ heap. record d { delay_heap = heap }) (sym rest) ∙ ap (λ r. r.1) h;
    }
