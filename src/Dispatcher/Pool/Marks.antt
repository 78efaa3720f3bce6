-- ===== src/Dispatcher/Pool/Marks.antt =====
-- internal/core/dispatcher.go and internal/core/worker.go: a job that is marked as cancelled, and the
-- check at the start of `runEntry`.
use jobx.Prelude.{
  ℕ, ◌≤◌, ◌≡◌, refl, sym, ap, true, false, List, ◌∷◌, ◌++◌, Option, none, some, arith,
}
use jobx.Prelude.Maps.{contains-add}
use jobx.Text.{Text, text_discrete}
use jobx.Clock.{Time}
use jobx.Errors.{Error}
use jobx.Job.{Job, JobEntry, JobSpec}
use jobx.Dispatcher.State.{Dispatcher}
use jobx.Dispatcher.Steps.{
  is_cancelled, mark_status, metric, release_job, delete_stored, push_delayed,
}
use jobx.Dispatcher.Submit.{build_entry}
use jobx.Dispatcher.Cancel.{cancel_by_id}
use jobx.Dispatcher.Cancel.Effects.{cancel_by_id-cancelled}
use jobx.Dispatcher.Delay.{take_delayed}
use jobx.Dispatcher.Run.{
  begin_run, conclude, clean_up, schedule_retry, save_stored, retry_entry, clock_now, clock_read,
}
use jobx.Dispatcher.Pool.{
  Worker, free, holds, checked, runs, uncancelled, cleans, gone, Pool, Move, others, builds, queues,
  delays, drops, takes, cancels, pops, stops, skips, checks, begins, misses, abandons, rechecks,
  concludes, cleans_up, Reach, here, later,
}
use jobx.Dispatcher.Pool.Counts.{one_of, total, total-split}

-- A worker has found the job not cancelled, and is not done with it.
abbrev in_run : Text → Worker → ℕ
in_run id (checked e) = one_of id e
in_run id (runs e) = one_of id e
in_run id (uncancelled e) = one_of id e
in_run id _ = 0

-- How many workers are past the check of `runEntry` with a job.
unfoldable pub running_count : Text → Pool → ℕ
running_count id y = total (in_run id) y.workers

-- What becomes of a job that is marked as cancelled.
record Stays (id : Text) (y z : Pool) : Type 0 where
  marked : is_cancelled id z.disp ≡ true
  fewer : running_count id z ≤ running_count id y

begin_run-cancelled : (job : Job) (d : Dispatcher) → (begin_run job d).cancelled ≡ d.cancelled
unfolding begin_run mark_status metric
begin_run-cancelled job d = refl

clean_up-cancelled : (job : Job) (d : Dispatcher) → (clean_up job d).cancelled ≡ d.cancelled
unfolding clean_up delete_stored release_job metric
clean_up-cancelled job d = ground arith

save_stored-cancelled : (job : Job) (d : Dispatcher) → (save_stored job d).cancelled ≡ d.cancelled
unfolding save_stored
save_stored-cancelled job d = ground arith

conclude-cancelled :
    (result : Option Error) (start : Time) (e : JobEntry) (d : Dispatcher)
    → (conclude result start e d).cancelled ≡ d.cancelled
unfolding conclude schedule_retry mark_status metric push_delayed
conclude-cancelled none start e d = refl
conclude-cancelled (some reason) start e d =
    ground (arith, save_stored-cancelled (retry_entry e (clock_now d)).job (clock_read d))

build_entry-cancelled :
    (name payload : Text) (spec : JobSpec) (d : Dispatcher)
    → (build_entry name payload spec d).1.cancelled ≡ d.cancelled
unfolding build_entry
build_entry-cancelled name payload spec d = ground arith

-- A step that leaves the marks alone, and takes no worker past the check with the job.
same-Stays :
    (id : Text) (y z : Pool)
    → z.disp.cancelled ≡ y.disp.cancelled
    → is_cancelled id y.disp ≡ true
    → running_count id z ≤ running_count id y
    → Stays id y z
unfolding is_cancelled
same-Stays id y z e c h = record { marked = rw e c; fewer = h }

-- A step of a worker that does so.
turn-Stays :
    (id : Text) (y : Pool) (d : Dispatcher) (ws vs : List Worker) (w w' : Worker)
    → y.workers ≡ ws ++ (w ∷ vs)
    → d.cancelled ≡ y.disp.cancelled
    → is_cancelled id y.disp ≡ true
    → in_run id w' ≤ in_run id w
    → Stays id y (record y { disp = d; workers = ws ++ (w' ∷ vs) })
unfolding running_count
turn-Stays id y d ws vs w w' h e c le = same-Stays id y _ e c (
    omega (
      arith,
      ap (total (in_run id)) h,
      total-split (in_run id) ws vs w,
      total-split (in_run id) ws vs w',
      le,
    ))

cancels-marked :
    (id id' : Text) (d : Dispatcher)
    → is_cancelled id d ≡ true
    → is_cancelled id (cancel_by_id id' d) ≡ true
unfolding is_cancelled
cancels-marked id id' d c =
    rw (cancel_by_id-cancelled id' d)
      (ground (arith, contains-add text_discrete id id' d.cancelled))

-- A worker finds no job not cancelled that is marked.
begun_other :
    (id : Text) (e : JobEntry) (d : Dispatcher)
    → is_cancelled id d ≡ true
    → is_cancelled e.job.id d ≡ false
    → one_of id e ≡ 0
unfolding one_of
begun_other id e d c h = elim (text_discrete e.job.id id) [
  | yes same ↦ absurd (ground (arith, ap (λ i. is_cancelled i d) same))
  | no other ↦ ground arith
]

Move-Stays : (id : Text) {y z : Pool} → Move y z → is_cancelled id y.disp ≡ true → Stays id y z
unfolding mark_status metric release_job push_delayed take_delayed running_count
Move-Stays id {y} (others d q) c = same-Stays id y _ q.cancelled c (omega arith)
Move-Stays id {y} (builds name payload spec) c =
    same-Stays id y _ (build_entry-cancelled name payload spec y.disp) c (omega arith)
Move-Stays id {y} (queues ks ls e drop q h p) c = same-Stays id y _ refl c (omega arith)
Move-Stays id {y} (delays ks ls e h) c = same-Stays id y _ refl c (omega arith)
Move-Stays id {y} (drops ks ls e h) c = same-Stays id y _ refl c (omega arith)
Move-Stays id {y} (takes e d h) c =
    same-Stays id y _ (sym (ap (λ r. r.1.cancelled) h)) c (omega arith)
Move-Stays id {y} (cancels id') c = record {
  marked = cancels-marked id id' y.disp c;
  fewer = omega arith;
}
Move-Stays id {y} (pops ws vs e q h p) c =
    turn-Stays id y _ ws vs free (holds e) h refl c (omega arith)
Move-Stays id {y} (stops ws vs h p) c = turn-Stays id y _ ws vs free gone h refl c (omega arith)
Move-Stays id {y} (skips ws vs e h p) c =
    turn-Stays id y _ ws vs (holds e) free h refl c (omega arith)
Move-Stays id {y} (checks ws vs e h p) c =
    turn-Stays id y _ ws vs (holds e) (checked e) h refl c
      (omega (arith, begun_other id e y.disp c p))
Move-Stays id {y} (begins ws vs e h) c =
    turn-Stays id y _ ws vs (checked e) (runs e) h (begin_run-cancelled e.job y.disp) c
      (omega arith)
Move-Stays id {y} (misses ws vs e h) c =
    turn-Stays id y _ ws vs (runs e) (cleans e) h refl c (omega arith)
Move-Stays id {y} (abandons ws vs e h p) c =
    turn-Stays id y _ ws vs (runs e) (cleans e) h refl c (omega arith)
Move-Stays id {y} (rechecks ws vs e h p) c =
    turn-Stays id y _ ws vs (runs e) (uncancelled e) h refl c (omega arith)
Move-Stays id {y} (concludes ws vs e result start h) c =
    turn-Stays id y _ ws vs (uncancelled e) (cleans e) h (conclude-cancelled result start e y.disp)
      c (omega arith)
Move-Stays id {y} (cleans_up ws vs e h) c =
    turn-Stays id y _ ws vs (cleans e) free h (clean_up-cancelled e.job y.disp) c (omega arith)

-- However the calls and the goroutines go on after a job has been marked as cancelled, it stays marked,
-- and no worker passes the check at the start of `runEntry` with it any more: at no later time are more
-- workers past that check with it than at the time of the mark. A worker that has passed it before the
-- mark may still begin the job.
pub Reach-running_count :
    (id : Text) {y z : Pool}
    → Reach y z
    → is_cancelled id y.disp ≡ true
    → (is_cancelled id z.disp ≡ true) × (running_count id z ≤ running_count id y)
Reach-running_count id here c = (c, omega arith)
Reach-running_count id (later r m) c =
    let (marked, fewer) = Reach-running_count id r c in
    let s = Move-Stays id m marked in (s.marked, omega (arith, s.fewer, fewer))
