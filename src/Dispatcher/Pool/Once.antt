-- ===== src/Dispatcher/Pool/Once.antt =====
-- internal/core/dispatcher.go and internal/core/worker.go: each job stands in one place.
use jobx.Prelude.{
  ℕ, zero, suc, ◌+◌, ◌≤◌, ◌≡◌, ◌≢◌, refl, ap, ◌∙◌, List, [], ◌∷◌, ◌++◌, arith, inl, inr,
}
use jobx.Text.{Text, text_discrete}
use jobx.Errors.{ok}
use jobx.Job.{JobEntry}
use jobx.Options.{Config}
use jobx.ReadyQueue.{new_ready_queue}
use jobx.Heap.Laws.{IsOrdered}
use jobx.Dispatcher.State.{Dispatcher, Env, Reply}
use jobx.Dispatcher.Steps.{run_key}
use jobx.Dispatcher.Submit.{build_entry}
use jobx.Dispatcher.Cancel.{cancel_by_id}
use jobx.Dispatcher.Cancel.Effects.{count_id, IsCancelled, cancel_by_id-IsCancelled}
use jobx.Dispatcher.Lifecycle.{fresh_dispatcher}
use jobx.Dispatcher.Pool.{
  Worker, free, holds, checked, runs, uncancelled, cleans, gone, Pool, made, Move, others, builds,
  queues, delays, drops, takes, cancels, pops, stops, skips, checks, begins, misses, abandons,
  rechecks, concludes, cleans_up, Reach, here, later, start, free_workers,
}
use jobx.Dispatcher.Pool.Counts.{one_of, total, total-split, count_id-cons}
use jobx.Dispatcher.Pool.Adds.{
  none_more, still-Adds, clean_up-Adds, conclude-Adds, cancel_by_id-Adds, Quiet-Adds, self-Adds,
  queues-Adds, delays-Adds, Builds, build_entry-Builds, skip-Adds, check-Adds, begin-Adds,
  miss-Adds, abandon-Adds,
}
use jobx.Dispatcher.Pool.Keeps.{
  in_work, copies, IsDistinct, IsOnce, Keeps-IsOnce, Adds-Keeps, turn-Keeps, place-Keeps,
  takes-Keeps, pops-Keeps,
}

-- An id that the random source gives now or later is not in use, and not given again.
module _ (env : Env) (y : Pool) (r : Reply JobEntry × Dispatcher) (e : JobEntry)
    (distinct : IsDistinct env) (b : Builds y.disp r) (one : made r.0 ≡ e ∷ [])
    (read : y.disp.env.random_hex y.disp.random_reads ≡ ok e.job.id)
    (reads : r.1.random_reads ≡ suc y.disp.random_reads) (o : IsOnce env y) where
  abbrev built : Pool
  built = record y { disp = r.1; held = made r.0 ++ y.held }

  one_more : (id : Text) → copies id built ≡ one_of id e + copies id y
  unfolding copies
  one_more id = rw (one, b.items, b.heap) (omega (arith, count_id-cons id e y.held))

  read_here : env.random_hex y.disp.random_reads ≡ ok e.job.id
  read_here = rw (← o.same_env) read

  new-IsOnce : IsOnce env built
  unfolding one_of
  new-IsOnce = record {
    same_env = b.same_env ∙ o.same_env;
    ordered = rw b.heap o.ordered;
    once = λ id. elim (text_discrete e.job.id id) [
      | yes same ↦
          let free_id = o.unmade id y.disp.random_reads (omega arith) (read_here ∙ ap ok same) in
          ground (arith, one_more id, free_id)
      | no other ↦ ground (arith, one_more id, o.once id)
    ];
    unmade = λ id n h later_read.
        let before = o.unmade id n (omega (arith, reads)) later_read in
        elim (text_discrete e.job.id id) [
          | yes same ↦
              let again = distinct y.disp.random_reads n id (read_here ∙ ap ok same) later_read in
              absurd (omega (arith, again, reads))
          | no other ↦ ground (arith, one_more id, before)
        ];
  }

-- A new entry on its way.
built-IsOnce :
    (env : Env) (y : Pool) (r : Reply JobEntry × Dispatcher)
    → IsDistinct env
    → Builds y.disp r
    → IsOnce env y
    → IsOnce env (record y { disp = r.1; held = made r.0 ++ y.held })
unfolding copies
built-IsOnce env y r distinct b o = elim b.fresh [
  | inl nothing ↦
      Keeps-IsOnce
        (Adds-Keeps y r.1 (made r.0 ++ y.held) y.workers
          (still-Adds none_more y.disp r.1 b.same_env b.reads (ap (λ q. q.items) b.items) b.heap)
          λ id. rw nothing (omega arith))
        o
  | inr (e, one, read, reads) ↦ new-IsOnce env y r e distinct b one read reads o
]

-- Every step keeps each job in one place.
Move-IsOnce : {env : Env} {y z : Pool} → IsDistinct env → Move y z → IsOnce env y → IsOnce env z
Move-IsOnce {env} {y} distinct (builds name payload spec) o =
    built-IsOnce env y (build_entry name payload spec y.disp) distinct
      (build_entry-Builds name payload spec y.disp) o
Move-IsOnce {y = y} distinct (others d q) o =
    Keeps-IsOnce (Adds-Keeps y d y.held y.workers (Quiet-Adds y.disp d q) λ id. omega arith) o
Move-IsOnce {y = y} distinct (queues ks ls e drop q h p) o =
    Keeps-IsOnce (place-Keeps y _ ks ls e h (queues-Adds y.disp e drop q p)) o
Move-IsOnce {y = y} distinct (delays ks ls e h) o =
    Keeps-IsOnce (place-Keeps y _ ks ls e h (delays-Adds y.disp e)) o
Move-IsOnce {y = y} distinct (drops ks ls e h) o =
    Keeps-IsOnce
      (place-Keeps y _ ks ls e h (still-Adds _ y.disp y.disp refl (omega arith) refl refl)) o
Move-IsOnce {y = y} distinct (takes e d h) o = Keeps-IsOnce (takes-Keeps y d e h) o
Move-IsOnce {y = y} distinct (cancels id) o =
    Keeps-IsOnce (Adds-Keeps y _ y.held y.workers (cancel_by_id-Adds id y.disp) λ id'. omega arith)
      o
Move-IsOnce {y = y} distinct (pops ws vs e q h p) o = Keeps-IsOnce (pops-Keeps y ws vs e q h p) o
Move-IsOnce {y = y} distinct (stops ws vs h p) o =
    Keeps-IsOnce (turn-Keeps y _ ws vs free gone h (self-Adds y.disp) λ id. omega arith) o
Move-IsOnce {y = y} distinct (skips ws vs e h c) o =
    Keeps-IsOnce (turn-Keeps y _ ws vs (holds e) free h (skip-Adds e y.disp) λ id. omega arith) o
Move-IsOnce {y = y} distinct (checks ws vs e h c) o =
    Keeps-IsOnce
      (turn-Keeps y _ ws vs (holds e) (checked e) h (check-Adds e y.disp) λ id. omega arith) o
Move-IsOnce {y = y} distinct (begins ws vs e h) o =
    Keeps-IsOnce
      (turn-Keeps y _ ws vs (checked e) (runs e) h (begin-Adds e y.disp) λ id. omega arith) o
Move-IsOnce {y = y} distinct (misses ws vs e h) o =
    Keeps-IsOnce (turn-Keeps y _ ws vs (runs e) (cleans e) h (miss-Adds e y.disp) λ id. omega arith)
      o
Move-IsOnce {y = y} distinct (abandons ws vs e h c) o =
    Keeps-IsOnce
      (turn-Keeps y _ ws vs (runs e) (cleans e) h (abandon-Adds e y.disp) λ id. omega arith) o
Move-IsOnce {y = y} distinct (rechecks ws vs e h c) o =
    Keeps-IsOnce
      (turn-Keeps y _ ws vs (runs e) (uncancelled e) h (self-Adds y.disp) λ id. omega arith) o
Move-IsOnce {y = y} distinct (concludes ws vs e result start h) o =
    Keeps-IsOnce
      (turn-Keeps y _ ws vs (uncancelled e) (cleans e) h (conclude-Adds result start e y.disp)
        λ id. omega arith)
      o
Move-IsOnce {y = y} distinct (cleans_up ws vs e h) o =
    Keeps-IsOnce
      (turn-Keeps y _ ws vs (cleans e) free h (clean_up-Adds e.job y.disp) λ id. omega arith) o

start_nothing : (id : Text) (n : ℕ) → total (in_work id) (free_workers n) ≡ 0
unfolding total
start_nothing id zero = refl
start_nothing id (suc n) = omega (arith, start_nothing id n)

start-IsOnce : (env : Env) (cfg : Config) → IsOnce env (start env cfg)
unfolding copies fresh_dispatcher new_ready_queue count_id
start-IsOnce env cfg = record {
  same_env = refl;
  ordered = λ c p q. absurd (omega arith);
  once = λ id. omega (arith, start_nothing id cfg.workers);
  unmade = λ id n h e. omega (arith, start_nothing id cfg.workers);
}

Reach-IsOnce :
    (env : Env) (cfg : Config) {y : Pool} → IsDistinct env → Reach (start env cfg) y → IsOnce env y
Reach-IsOnce env cfg distinct here = start-IsOnce env cfg
Reach-IsOnce env cfg distinct (later r m) = Move-IsOnce distinct m (Reach-IsOnce env cfg distinct r)

-- However the submissions, the delay loop, the workers and the cancellations interleave, no job stands
-- twice among the entries on their way, the ready queue, the delay heap and the workers that hold or
-- run one, and the delay heap is in heap order, if the random source never gives an id twice.
pub Reach-copies :
    (env : Env) (cfg : Config) (y : Pool)
    → IsDistinct env
    → Reach (start env cfg) y
    → IsOrdered run_key y.disp.delay_heap × ((id : Text) → copies id y ≤ 1)
Reach-copies env cfg y distinct r = let o = Reach-IsOnce env cfg distinct r in (o.ordered, o.once)

one_of_twice :
    (e f : JobEntry) (id : Text) → e.job.id ≡ id → f.job.id ≡ id → one_of id e + one_of id f ≡ 2
unfolding one_of
one_of_twice e f id p q = ground arith

-- However the calls and the goroutines interleave, two workers never run the same job at once, if the
-- random source never gives an id twice.
pub Reach-runs_apart :
    (env : Env) (cfg : Config) (y : Pool)
    → IsDistinct env
    → Reach (start env cfg) y
    → (us vs ws : List Worker) (e f : JobEntry) → y.workers ≡ us ++ (runs e ∷ (vs ++ (runs f ∷ ws)))
    → e.job.id ≢ f.job.id
unfolding copies
Reach-runs_apart env cfg y distinct r us vs ws e f h same =
    let id = f.job.id in
    let o = (Reach-IsOnce env cfg distinct r).once id in
    omega (
      arith,
      o,
      ap (total (in_work id)) h,
      total-split (in_work id) us (vs ++ (runs f ∷ ws)) (runs e),
      total-split (in_work id) vs ws (runs f),
      one_of_twice e f id same refl,
    )

-- Whatever has happened before, `cancelByIDLocked` achieves what it is for: the job is reported and
-- marked as cancelled, it stands neither on the delay heap nor in the ready queue, and the heap is in
-- order, if the random source never gives an id twice.
pub Reach-cancel_by_id :
    (env : Env) (cfg : Config) (y : Pool)
    → IsDistinct env
    → Reach (start env cfg) y
    → (id : Text) → IsCancelled id (cancel_by_id id y.disp)
unfolding copies
Reach-cancel_by_id env cfg y distinct r id =
    let o = Reach-IsOnce env cfg distinct r in
    cancel_by_id-IsCancelled id y.disp o.ordered (omega (arith, o.once id))
      (omega (arith, o.once id))
