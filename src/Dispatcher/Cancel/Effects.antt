-- ===== src/Dispatcher/Cancel/Effects.antt =====
-- internal/core/dispatcher.go: what `Cancel` achieves.
use mathlib.Core.List.{Perm, Permᴰ}
use mathlib.Core.Logic.{∥∥₁_elim}
use native.Mathlib.Nat.{ℕ_set}
use jobx.Prelude.{
  ℕ, suc, ◌≤◌, ◌<◌, ◌≡◌, refl, ◌∙◌, true, List, [], ◌∷◌, none, some, arith, Option-cases, inl, inr,
  ite, length, get_elem?,
}
use jobx.Prelude.Maps.{add, contains-add}
use jobx.Text.{Text, text_discrete}
use jobx.Errors.{ok}
use jobx.Job.{JobEntry}
use jobx.ReadyQueue.{remove_items, remove}
use jobx.ReadyQueue
use jobx.Heap.Laws.{IsOrdered, remove-Removes}
use jobx.Status.{Status}
use jobx.Status
use jobx.Status.Table.{job_status-mark_status}
use jobx.Metrics.{MetricEvent, Delta}
use jobx.Dispatcher.State.{Dispatcher}
use jobx.Dispatcher.Steps.{run_key, mark_status, release_job, delete_stored, is_cancelled, metric}
use jobx.Dispatcher.Cancel.{index_of, remove_at, remove_delayed, release_named, cancel_by_id}
use jobx.Dispatcher.Run.{run_entry}
use jobx.Dispatcher.Run.Ends.{run_entry_gone}

-- How often an id stands in a list of entries.
unfoldable pub count_id : Text → List JobEntry → ℕ
count_id id [] = 0
count_id id (e ∷ l) = ite (text_discrete e.job.id id) (suc (count_id id l)) (count_id id l)

count_id-Permᴰ : (id : Text) {k l : List JobEntry} → Permᴰ k l → count_id id k ≡ count_id id l
unfolding count_id
count_id-Permᴰ id Permᴰ.nil = refl
count_id-Permᴰ id (Permᴰ.cons e p) = ground (arith, count_id-Permᴰ id p)
count_id-Permᴰ id (Permᴰ.swap e f) = ground arith
count_id-Permᴰ id (Permᴰ.trans p q) = count_id-Permᴰ id p ∙ count_id-Permᴰ id q

pub count_id-perm : (id : Text) {k l : List JobEntry} → Perm k l → count_id id k ≡ count_id id l
count_id-perm id p = ∥∥₁_elim p (ℕ_set _ _) (count_id-Permᴰ id)

index_of-none : (id : Text) (l : List JobEntry) → index_of id l ≡ none → count_id id l ≡ 0
unfolding count_id index_of
index_of-none id [] h = refl
index_of-none id (e ∷ l) h = ground (arith, index_of-none id l)

pub index_of-some :
    (id : Text) (l : List JobEntry) (i : ℕ)
    → index_of id l ≡ some i
    → (e : JobEntry) × (get_elem? l i ≡ some e) × (e.job.id ≡ id) × (i < length l)
unfolding index_of
index_of-some id [] i h = cc
index_of-some id (e ∷ l) i h = elim (text_discrete e.job.id id) [
  | yes p ↦ let first : i ≡ 0 = ground arith in rw first (e, refl, p, omega arith)
  | no n ↦ elim (Option-cases (index_of id l)) [
    | inl missing ↦ absurd (ground arith)
    | inr (j, found) ↦
        let later : i ≡ suc j = ground arith in
        let (x, at, same, inside) = index_of-some id l j found in
        rw later (x, at, same, omega arith)
  ]
]

count_id-remove_items :
    (id : Text) (l : List JobEntry) → count_id id l ≤ 1 → count_id id (remove_items id l).0 ≡ 0
unfolding count_id remove_items
count_id-remove_items id [] h = refl
count_id-remove_items id (e ∷ l) h = ground (arith, count_id-remove_items id l)

-- Taking a delayed job off the heap leaves no entry of it, and the others in heap order.
remove_delayed_correct :
    (id : Text) (l : List JobEntry)
    → IsOrdered run_key l
    → count_id id l ≤ 1
    → IsOrdered run_key (remove_delayed id l) × (count_id id (remove_delayed id l) ≡ 0)
unfolding remove_delayed remove_at count_id
remove_delayed_correct id l ordered once = elim (Option-cases (index_of id l)) [
  | inl e ↦ rw (e, remove_at) (ordered, index_of-none id l e)
  | inr (i, e) ↦
      let (entry, at, same, inside) = index_of-some id l i e in
      let r = remove-Removes run_key l i inside ordered in
      let left = count_id-perm id r.same in
      rw (e, remove_at) (r.ordered, ground (arith, left, r.there))
]

-- What `cancelByIDLocked` does to each part of the dispatcher that the record below speaks of.
pub cancel_by_id-delay_heap :
    (id : Text) (d : Dispatcher) → (cancel_by_id id d).delay_heap ≡ remove_delayed id d.delay_heap
unfolding cancel_by_id release_named release_job delete_stored mark_status
cancel_by_id-delay_heap id d = ground arith

pub cancel_by_id-ready :
    (id : Text) (d : Dispatcher) → (cancel_by_id id d).ready ≡ (ReadyQueue.remove id d.ready).0
unfolding cancel_by_id release_named release_job delete_stored mark_status
cancel_by_id-ready id d = ground arith

pub cancel_by_id-cancelled :
    (id : Text) (d : Dispatcher) → (cancel_by_id id d).cancelled ≡ add text_discrete id d.cancelled
unfolding cancel_by_id release_named release_job delete_stored mark_status
cancel_by_id-cancelled id d = ground arith

cancel_by_id-is_cancelled :
    (id : Text) (d : Dispatcher) → is_cancelled id (cancel_by_id id d) ≡ true
unfolding is_cancelled
cancel_by_id-is_cancelled id d =
    rw (cancel_by_id-cancelled id d) (ground (arith, contains-add text_discrete id id d.cancelled))

cancel_by_id-status :
    (id : Text) (d : Dispatcher)
    → Status.job_status id (cancel_by_id id d).table ≡ ok Status.cancelled
unfolding cancel_by_id mark_status
cancel_by_id-status id d = job_status-mark_status id Status.cancelled _

removed-count_id :
    (id : Text) (q : ReadyQueue.ReadyQueue)
    → count_id id q.items ≤ 1
    → count_id id (ReadyQueue.remove id q).0.items ≡ 0
unfolding remove
removed-count_id id q h = count_id-remove_items id q.items h

-- What the record says of the dispatcher before and after a cancellation.
pub record IsCancelled (id : Text) (d : Dispatcher) : Type 0 where
  pub reported : Status.job_status id d.table ≡ ok Status.cancelled
  pub marked : is_cancelled id d ≡ true
  pub not_delayed : count_id id d.delay_heap ≡ 0
  pub not_ready : count_id id d.ready.items ≡ 0
  pub ordered : IsOrdered run_key d.delay_heap

-- After `cancelByIDLocked` the job is reported as cancelled and marked so, it stands neither on the
-- delay heap nor in the ready queue, and the heap is in order, provided the heap was in order and
-- held the id at most once, as did the queue.
pub cancel_by_id-IsCancelled :
    (id : Text) (d : Dispatcher)
    → IsOrdered run_key d.delay_heap
    → count_id id d.delay_heap ≤ 1
    → count_id id d.ready.items ≤ 1
    → IsCancelled id (cancel_by_id id d)
cancel_by_id-IsCancelled id d ordered delayed ready =
    let heap = remove_delayed_correct id d.delay_heap ordered delayed in
    record {
      reported = cancel_by_id-status id d;
      marked = cancel_by_id-is_cancelled id d;
      not_delayed = rw (cancel_by_id-delay_heap id d) heap.1;
      not_ready = rw (cancel_by_id-ready id d) (removed-count_id id d.ready ready);
      ordered = rw (cancel_by_id-delay_heap id d) heap.0;
    }

-- A worker that took a job from the queue before `Cancel` was called and begins with it afterwards
-- does not execute it: `runEntry` stores no cancel function and reports nothing but that the job
-- has left the queue, and the status stays cancelled.
pub cancel_prevents_run :
    (others : Dispatcher → Dispatcher) (entry : JobEntry) (d : Dispatcher)
    → let before = cancel_by_id entry.job.id d in
      let after = run_entry others entry before in
      (after.events ≡ MetricEvent.queued entry.job.name Delta.minus_one ∷ before.events)
      × (after.executing ≡ before.executing)
      × (Status.job_status entry.job.id after.table ≡ ok Status.cancelled)
unfolding release_job metric mark_status
cancel_prevents_run others entry d =
    rw
      (run_entry_gone others entry (cancel_by_id entry.job.id d)
        (cancel_by_id-is_cancelled entry.job.id d))
      (refl, refl, job_status-mark_status entry.job.id Status.cancelled _)
