-- ===== src/Dispatcher/Pool/Adds.antt =====
-- internal/core/dispatcher.go and internal/core/worker.go: what the steps of the pool add to the entries
-- in the dispatcher.
use jobx.Prelude.{
  ℕ, suc, ◌+◌, ◌≤◌, ◌≡◌, ◌⊎◌, refl, ap, Bool, [], ◌∷◌, Option, none, some, arith, Bool-cases, inl,
  inr,
}
use jobx.Text.{Text}
use jobx.Clock.{Time}
use jobx.Errors.{new_code, job_cancelled, Error, ok}
use jobx.Job.{Job, JobEntry, JobSpec}
use jobx.Logs.{LogEntry}
use jobx.Status
use jobx.ReadyQueue.{ReadyQueue, push_round, added}
use jobx.Heap.Laws.{IsOrdered}
use jobx.Dispatcher.State.{Dispatcher, Reply, returns, fails, blocks}
use jobx.Dispatcher.Steps.{
  log, run_key, mark_status, metric, release_job, delete_stored, put_ready, push_delayed,
}
use jobx.Dispatcher.Submit.{build_entry}
use jobx.Dispatcher.Submit.Rollback.{build_entry-returns}
use jobx.Dispatcher.Cancel.{cancel_by_id, release_named}
use jobx.Dispatcher.Cancel.Effects.{count_id, cancel_by_id-delay_heap, cancel_by_id-ready}
use jobx.Dispatcher.Run.{
  begin_run, conclude, clean_up, schedule_retry, retry_entry, save_stored, clock_now, clock_read,
  may_retry,
}
use jobx.Dispatcher.Pool.{Quiet, made, note_taken, miss, start}
use jobx.Dispatcher.Pool.Counts.{
  one_of, push_round-added, remove-count_id, remove_delayed-fewer, push_delayed-count_id,
}

-- How often an id stands in the dispatcher.
abbrev pub placed : Text → Dispatcher → ℕ
placed id d = count_id id d.ready.items + count_id id d.delay_heap

-- What a change of the dispatcher adds to its entries, if the heap is in order.
pub record Adds (more : Text → ℕ) (d d' : Dispatcher) : Type 0 where
  pub same_env : d'.env ≡ d.env
  pub reads : d.random_reads ≤ d'.random_reads
  pub ordered : IsOrdered run_key d.delay_heap → IsOrdered run_key d'.delay_heap
  pub placed_le :
      IsOrdered run_key d.delay_heap → (id : Text) → placed id d' ≤ more id + placed id d

abbrev pub none_more : Text → ℕ
none_more id = 0

abbrev pub the_entry : JobEntry → Text → ℕ
the_entry e id = one_of id e

-- A change that leaves the environment, the queue and the heap alone.
pub still-Adds :
    (more : Text → ℕ) (d d' : Dispatcher)
    → d'.env ≡ d.env
    → d.random_reads ≤ d'.random_reads
    → d'.ready.items ≡ d.ready.items
    → d'.delay_heap ≡ d.delay_heap
    → Adds more d d'
still-Adds more d d' a b c e = record {
  same_env = a;
  reads = b;
  ordered = λ h. rw e h;
  placed_le = λ h id. rw (c, e) (omega arith);
}

pub begin_run-Adds : (job : Job) (d : Dispatcher) → Adds none_more d (begin_run job d)
unfolding begin_run mark_status metric
begin_run-Adds job d = still-Adds none_more d _ refl (omega arith) refl refl

pub clean_up-Adds : (job : Job) (d : Dispatcher) → Adds none_more d (clean_up job d)
unfolding clean_up delete_stored release_job metric
clean_up-Adds job d =
    still-Adds none_more d _ (ground arith) (ground arith) (ground arith) (ground arith)

-- What `save_stored` leaves alone.
pub record Saved (d d' : Dispatcher) : Type 0 where
  pub same_env : d'.env ≡ d.env
  pub reads : d'.random_reads ≡ d.random_reads
  pub items : d'.ready ≡ d.ready
  pub heap : d'.delay_heap ≡ d.delay_heap

pub save_stored-Saved : (job : Job) (d : Dispatcher) → Saved d (save_stored job d)
unfolding save_stored
save_stored-Saved job d = record {
  same_env = ground arith;
  reads = ground arith;
  items = ground arith;
  heap = ground arith;
}

pub schedule_retry-Adds :
    (cause : Error) (e : JobEntry) (d : Dispatcher)
    → Adds (the_entry e) d (schedule_retry cause e d)
unfolding schedule_retry retry_entry mark_status metric push_delayed one_of
schedule_retry-Adds cause e d =
    let next = retry_entry e (clock_now d) in
    let d₁ = save_stored next.job (clock_read d) in
    let s = save_stored-Saved next.job (clock_read d) in
    let pushed = λ (id : Text). push_delayed-count_id id next d₁ in
    record {
      same_env = s.same_env;
      reads = omega (arith, s.reads);
      ordered = λ h. (pushed e.job.id (rw s.heap h)).0;
      placed_le =
          λ h id. rw s.items (omega (arith, (pushed id (rw s.heap h)).1, ap (count_id id) s.heap));
    }

pub conclude-Adds :
    (result : Option Error) (start : Time) (e : JobEntry) (d : Dispatcher)
    → Adds (the_entry e) d (conclude result start e d)
unfolding conclude mark_status metric
conclude-Adds none start e d = still-Adds (the_entry e) d _ refl (omega arith) refl refl
conclude-Adds (some reason) start e d = elim (Bool-cases (may_retry e.job)) [
  | inl again ↦ rw (again, conclude) (schedule_retry-Adds reason e d)
  | inr over ↦ rw (over, conclude) (still-Adds (the_entry e) d _ refl (omega arith) refl refl)
]

pub cancel_by_id-Adds : (id : Text) (d : Dispatcher) → Adds none_more d (cancel_by_id id d)
unfolding cancel_by_id release_named release_job delete_stored mark_status
cancel_by_id-Adds id d =
    let heap = λ (id' : Text). remove_delayed-fewer id' id d.delay_heap in
    record {
      same_env = ground arith;
      reads = ground arith;
      ordered = λ h. rw (cancel_by_id-delay_heap id d) (heap id h).0;
      placed_le = λ h id'.
          rw (cancel_by_id-delay_heap id d, cancel_by_id-ready id d)
            (omega (arith, (heap id' h).1, remove-count_id id' id d.ready));
    }

pub Quiet-Adds : (d d' : Dispatcher) → Quiet d d' → Adds none_more d d'
Quiet-Adds d d' q = still-Adds none_more d d' q.env q.random_reads q.items q.delay_heap

pub self-Adds : (d : Dispatcher) → Adds none_more d d
self-Adds d = still-Adds none_more d d refl (omega arith) refl refl

pub queues-Adds :
    (d : Dispatcher) (e : JobEntry) (drop : Bool) (q : ReadyQueue)
    → push_round d.ready e drop ≡ added q
    → Adds (the_entry e) d (put_ready q d)
queues-Adds d e drop q h = record {
  same_env = refl;
  reads = omega arith;
  ordered = λ o. o;
  placed_le = λ o id. omega (arith, push_round-added id d.ready q e drop h);
}

pub delays-Adds : (d : Dispatcher) (e : JobEntry) → Adds (the_entry e) d (push_delayed e d)
unfolding push_delayed
delays-Adds d e = record {
  same_env = refl;
  reads = omega arith;
  ordered = λ o. (push_delayed-count_id e.job.id e d o).0;
  placed_le = λ o id. omega (arith, (push_delayed-count_id id e d o).1);
}

-- What `buildEntry` does to the dispatcher, and how it comes to its id.
pub record Builds (d : Dispatcher) (r : Reply JobEntry × Dispatcher) : Type 0 where
  pub same_env : r.1.env ≡ d.env
  pub reads : d.random_reads ≤ r.1.random_reads
  pub items : r.1.ready ≡ d.ready
  pub heap : r.1.delay_heap ≡ d.delay_heap
  pub fresh :
      (made r.0 ≡ [])
      ⊎ ((e : JobEntry) × (made r.0 ≡ e ∷ [])
          × (d.env.random_hex d.random_reads ≡ ok e.job.id)
          × (r.1.random_reads ≡ suc d.random_reads))

pub build_entry-reads :
    (name payload : Text) (spec : JobSpec) (d : Dispatcher) (e : JobEntry)
    → (build_entry name payload spec d).0 ≡ returns e
    → (build_entry name payload spec d).1.random_reads ≡ suc d.random_reads
unfolding build_entry
build_entry-reads name payload spec d e h = ground arith

pub reply-cases :
    (r : Reply JobEntry) → (made r ≡ []) ⊎ ((e : JobEntry) × (made r ≡ e ∷ []) × (r ≡ returns e))
reply-cases (returns e) = inr (e, refl, refl)
reply-cases (fails x) = inl refl
reply-cases blocks = inl refl

pub build_entry-Builds :
    (name payload : Text) (spec : JobSpec) (d : Dispatcher)
    → Builds d (build_entry name payload spec d)
unfolding build_entry
build_entry-Builds name payload spec d = record {
  same_env = ground arith;
  reads = ground arith;
  items = ground arith;
  heap = ground arith;
  fresh = elim (reply-cases (build_entry name payload spec d).0) [
    | inl nothing ↦ inl nothing
    | inr (e, one, h) ↦ inr (
      e,
      one,
      build_entry-returns name payload spec d e h,
      build_entry-reads name payload spec d e h,
    )
  ];
}

pub skip-Adds :
    (e : JobEntry) (d : Dispatcher)
    → Adds none_more d
        (release_job e.job.name e.job.id (mark_status e.job.id Status.cancelled (note_taken e d)))
unfolding release_job mark_status metric
skip-Adds e d = still-Adds none_more d _ refl (omega arith) refl refl

pub check-Adds : (e : JobEntry) (d : Dispatcher) → Adds none_more d (note_taken e d)
unfolding metric
check-Adds e d = still-Adds none_more d _ refl (omega arith) refl refl

pub begin-Adds : (e : JobEntry) (d : Dispatcher) → Adds none_more d (begin_run e.job d)
unfolding begin_run mark_status metric
begin-Adds e d = still-Adds none_more d _ refl (omega arith) refl refl

pub miss-Adds : (e : JobEntry) (d : Dispatcher) → Adds none_more d (miss e d)
unfolding mark_status metric
miss-Adds e d = still-Adds none_more d _ refl (omega arith) refl refl

pub abandon-Adds :
    (e : JobEntry) (d : Dispatcher)
    → Adds none_more d (
        log
          (LogEntry.failed e.job (new_code job_cancelled))
          (mark_status e.job.id Status.cancelled d))
unfolding mark_status
abandon-Adds e d = still-Adds none_more d _ refl (omega arith) refl refl
