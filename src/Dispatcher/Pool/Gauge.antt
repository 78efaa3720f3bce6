-- ===== src/Dispatcher/Pool/Gauge.antt =====
-- internal/core/worker.go: the gauge of the running jobs.
use jobx.Prelude.{
  ℕ, zero, suc, ◌+◌, ◌≡◌, refl, sym, ap, List, ◌∷◌, ◌++◌, Option, none, some, arith, ite,
  Bool-cases, inl, inr,
}
use jobx.Text.{Text, text_discrete}
use jobx.Clock.{Time}
use jobx.Errors.{Error}
use jobx.Job.{Job, JobEntry, JobSpec}
use jobx.Options.{Config}
use jobx.Status
use jobx.Dispatcher.State.{Dispatcher, Env}
use jobx.Dispatcher.Steps.{mark_status, metric, release_job, delete_stored, push_delayed}
use jobx.Dispatcher.Submit.{build_entry}
use jobx.Dispatcher.Cancel.{cancel_by_id, release_named}
use jobx.Dispatcher.Delay.{take_delayed}
use jobx.Dispatcher.Run.{
  begin_run, conclude, clean_up, schedule_retry, save_stored, retry_entry, clock_now, clock_read,
  may_retry,
}
use jobx.Dispatcher.Lifecycle.{fresh_dispatcher}
use jobx.Dispatcher.Pool.{
  Worker, free, holds, checked, runs, uncancelled, cleans, gone, Pool, Move, others, builds, queues,
  delays, drops, takes, cancels, pops, stops, skips, checks, begins, misses, abandons, rechecks,
  concludes, cleans_up, Reach, here, later, note_taken, miss, begun, finished, start, free_workers,
}
use jobx.Dispatcher.Pool.Counts.{total, total-split}

-- A worker is between the two calls of `metricRunning` for a job of the name.
abbrev in_gauge : Text → Worker → ℕ
in_gauge name (runs e) = ite (text_discrete e.job.name name) 1 0
in_gauge name (uncancelled e) = ite (text_discrete e.job.name name) 1 0
in_gauge name (cleans e) = ite (text_discrete e.job.name name) 1 0
in_gauge name _ = 0

-- How many workers are.
unfoldable pub busy : Text → Pool → ℕ
busy name y = total (in_gauge name) y.workers

-- What a step adds to the gauge, and takes off it.
record Shifts (name : Text) (up down : ℕ) (d d' : Dispatcher) : Type 0 where
  rise : begun name d'.events ≡ up + begun name d.events
  fall : finished name d'.events ≡ down + finished name d.events

same-Shifts : (name : Text) (d d' : Dispatcher) → d'.events ≡ d.events → Shifts name 0 0 d d'
same-Shifts name d d' e = record {
  rise = omega (arith, ap (begun name) e);
  fall = omega (arith, ap (finished name) e);
}

named : Text → Job → ℕ
named name job = ite (text_discrete job.name name) 1 0

begin_run-Shifts :
    (name : Text) (job : Job) (d : Dispatcher) → Shifts name (named name job) 0 d (begin_run job d)
unfolding begin_run mark_status metric begun finished named
begin_run-Shifts name job d = record { rise = ground arith; fall = ground arith }

delete_stored-events : (id : Text) (d : Dispatcher) → (delete_stored id d).events ≡ d.events
unfolding delete_stored
delete_stored-events id d = ground arith

save_stored-events : (job : Job) (d : Dispatcher) → (save_stored job d).events ≡ d.events
unfolding save_stored
save_stored-events job d = ground arith

clean_up-Shifts :
    (name : Text) (job : Job) (d : Dispatcher) → Shifts name 0 (named name job) d (clean_up job d)
unfolding clean_up release_job metric begun finished named
clean_up-Shifts name job d =
    rw (delete_stored-events job.id _) (record { rise = ground arith; fall = ground arith })

schedule_retry-Shifts :
    (name : Text) (cause : Error) (e : JobEntry) (d : Dispatcher)
    → Shifts name 0 0 d (schedule_retry cause e d)
unfolding schedule_retry mark_status metric push_delayed begun finished
schedule_retry-Shifts name cause e d =
    let saved = save_stored-events (retry_entry e (clock_now d)).job (clock_read d) in
    record {
      rise = omega (arith, ap (begun name) saved);
      fall = omega (arith, ap (finished name) saved);
    }

conclude-Shifts :
    (name : Text) (result : Option Error) (start : Time) (e : JobEntry) (d : Dispatcher)
    → Shifts name 0 0 d (conclude result start e d)
unfolding conclude schedule_retry mark_status metric push_delayed begun finished
conclude-Shifts name none start e d = record { rise = ground arith; fall = ground arith }
conclude-Shifts name (some reason) start e d = elim (Bool-cases (may_retry e.job)) [
  | inl again ↦ rw (again, conclude) (schedule_retry-Shifts name reason e d)
  | inr over ↦ rw (over, conclude) (record { rise = ground arith; fall = ground arith })
]

cancel_by_id-events : (id : Text) (d : Dispatcher) → (cancel_by_id id d).events ≡ d.events
unfolding cancel_by_id release_named release_job delete_stored mark_status
cancel_by_id-events id d = ground arith

build_entry-events :
    (name payload : Text) (spec : JobSpec) (d : Dispatcher)
    → (build_entry name payload spec d).1.events ≡ d.events
unfolding build_entry
build_entry-events name payload spec d = ground arith

-- The gauge of a name agrees with the workers.
record IsGauged (name : Text) (y : Pool) : Type 0 where
  level : begun name y.disp.events ≡ finished name y.disp.events + busy name y

still-IsGauged :
    (name : Text) (y z : Pool)
    → Shifts name 0 0 y.disp z.disp
    → z.workers ≡ y.workers
    → IsGauged name y
    → IsGauged name z
unfolding busy
still-IsGauged name y z s e g = record {
  level = omega (arith, s.rise, s.fall, g.level, ap (total (in_gauge name)) e);
}

turn-IsGauged :
    (name : Text) (up down : ℕ) (y : Pool) (d : Dispatcher) (ws vs : List Worker) (w w' : Worker)
    → y.workers ≡ ws ++ (w ∷ vs)
    → Shifts name up down y.disp d
    → down + in_gauge name w' ≡ up + in_gauge name w
    → IsGauged name y
    → IsGauged name (record y { disp = d; workers = ws ++ (w' ∷ vs) })
unfolding busy
turn-IsGauged name up down y d ws vs w w' h s e g = record {
  level = omega (
    arith,
    s.rise,
    s.fall,
    e,
    g.level,
    ap (total (in_gauge name)) h,
    total-split (in_gauge name) ws vs w,
    total-split (in_gauge name) ws vs w',
  );
}

-- A metric that is not the one of the gauge, and a status.
skip-Shifts :
    (name : Text) (e : JobEntry) (d : Dispatcher)
    → Shifts name 0 0 d
        (release_job e.job.name e.job.id (mark_status e.job.id Status.cancelled (note_taken e d)))
unfolding release_job mark_status metric begun finished
skip-Shifts name e d = record { rise = omega arith; fall = omega arith }

miss-Shifts : (name : Text) (e : JobEntry) (d : Dispatcher) → Shifts name 0 0 d (miss e d)
unfolding mark_status metric begun finished
miss-Shifts name e d = record { rise = omega arith; fall = omega arith }

check-Shifts : (name : Text) (e : JobEntry) (d : Dispatcher) → Shifts name 0 0 d (note_taken e d)
unfolding metric begun finished
check-Shifts name e d = record { rise = omega arith; fall = omega arith }

Move-IsGauged : (name : Text) {y z : Pool} → Move y z → IsGauged name y → IsGauged name z
unfolding mark_status push_delayed take_delayed named
Move-IsGauged name {y} (others d q) g =
    still-IsGauged name y _
      (record {
        rise = omega (arith, q.begun_same name);
        fall = omega (arith, q.finished_same name);
      })
      refl g
Move-IsGauged name {y} (builds n payload spec) g =
    still-IsGauged name y _ (same-Shifts name y.disp _ (build_entry-events n payload spec y.disp))
      refl g
Move-IsGauged name {y} (queues ks ls e drop q h p) g =
    still-IsGauged name y _ (same-Shifts name y.disp _ refl) refl g
Move-IsGauged name {y} (delays ks ls e h) g =
    still-IsGauged name y _ (same-Shifts name y.disp _ refl) refl g
Move-IsGauged name {y} (drops ks ls e h) g =
    still-IsGauged name y _ (same-Shifts name y.disp _ refl) refl g
Move-IsGauged name {y} (takes e d h) g =
    still-IsGauged name y _ (same-Shifts name y.disp _ (sym (ap (λ r. r.1.events) h))) refl g
Move-IsGauged name {y} (cancels id) g =
    still-IsGauged name y _ (same-Shifts name y.disp _ (cancel_by_id-events id y.disp)) refl g
Move-IsGauged name {y} (pops ws vs e q h p) g =
    turn-IsGauged name 0 0 y _ ws vs free (holds e) h (same-Shifts name y.disp _ refl) refl g
Move-IsGauged name {y} (stops ws vs h p) g =
    turn-IsGauged name 0 0 y _ ws vs free gone h (same-Shifts name y.disp _ refl) refl g
Move-IsGauged name {y} (skips ws vs e h p) g =
    turn-IsGauged name 0 0 y _ ws vs (holds e) free h (skip-Shifts name e y.disp) refl g
Move-IsGauged name {y} (checks ws vs e h p) g =
    turn-IsGauged name 0 0 y _ ws vs (holds e) (checked e) h (check-Shifts name e y.disp) refl g
Move-IsGauged name {y} (begins ws vs e h) g =
    turn-IsGauged name (named name e.job) 0 y _ ws vs (checked e) (runs e) h
      (begin_run-Shifts name e.job y.disp) (omega arith) g
Move-IsGauged name {y} (misses ws vs e h) g =
    turn-IsGauged name 0 0 y _ ws vs (runs e) (cleans e) h (miss-Shifts name e y.disp) refl g
Move-IsGauged name {y} (abandons ws vs e h p) g =
    turn-IsGauged name 0 0 y _ ws vs (runs e) (cleans e) h (same-Shifts name y.disp _ refl) refl g
Move-IsGauged name {y} (rechecks ws vs e h p) g =
    turn-IsGauged name 0 0 y _ ws vs (runs e) (uncancelled e) h (same-Shifts name y.disp _ refl)
      refl g
Move-IsGauged name {y} (concludes ws vs e result start h) g =
    turn-IsGauged name 0 0 y _ ws vs (uncancelled e) (cleans e) h
      (conclude-Shifts name result start e y.disp) refl g
Move-IsGauged name {y} (cleans_up ws vs e h) g =
    turn-IsGauged name 0 (named name e.job) y _ ws vs (cleans e) free h
      (clean_up-Shifts name e.job y.disp) (omega arith) g

start_idle : (name : Text) (n : ℕ) → total (in_gauge name) (free_workers n) ≡ 0
unfolding total
start_idle name zero = refl
start_idle name (suc n) = omega (arith, start_idle name n)

start-IsGauged : (name : Text) (env : Env) (cfg : Config) → IsGauged name (start env cfg)
unfolding busy fresh_dispatcher begun finished
start-IsGauged name env cfg = record { level = omega (arith, start_idle name cfg.workers) }

Reach-IsGauged :
    (name : Text) (env : Env) (cfg : Config) {y : Pool} → Reach (start env cfg) y → IsGauged name y
Reach-IsGauged name env cfg here = start-IsGauged name env cfg
Reach-IsGauged name env cfg (later r m) = Move-IsGauged name m (Reach-IsGauged name env cfg r)

-- However the calls and the goroutines interleave, what `runEntry` has reported of a name to the gauge
-- of the running jobs adds up to the number of workers that are between its two reports, also when
-- jobs panic, are retried or are cancelled; so the gauge is back at zero once these workers are done.
pub Reach-busy :
    (name : Text) (env : Env) (cfg : Config) (y : Pool)
    → Reach (start env cfg) y
    → begun name y.disp.events ≡ finished name y.disp.events + busy name y
Reach-busy name env cfg y r = (Reach-IsGauged name env cfg r).level
