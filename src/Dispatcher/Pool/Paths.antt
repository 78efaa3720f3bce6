-- ===== src/Dispatcher/Pool/Paths.antt =====
-- internal/core/dispatcher.go and internal/core/worker.go: runs of steps of the pool put together, for
-- the calls that consist of them.
use jobx.Prelude.{
  ◌≤◌, ◌≡◌, ◌≢◌, refl, ap, Bool, true, false, List, [], ◌∷◌, ◌++◌, arith, All, if◌then◌else◌,
}
use jobx.Text.{Text}
use jobx.Job.{JobEntry}
use jobx.ReadyQueue.{receive, Wake, wake, done}
use jobx.Status.{Status}
use jobx.Logs.{LogEntry}
use jobx.Metrics.{MetricEvent}
use jobx.Dispatcher.State.{Dispatcher, Meanwhile, Reply, returns, fails, blocks, Call, then_call}
use jobx.Dispatcher.Steps.{mark_status, release_job, delete_stored, log, metric, put_ready}
use jobx.Dispatcher.Pool.{
  Worker, Pool, Quiet, Move, others, drops, begun, finished, Reach, here, later,
}

abbrev pub pool : Dispatcher → List JobEntry → List Worker → Pool
pool d es ws = record { disp = d; held = es; workers = ws }

pub Reach-trans : {x y z : Pool} → Reach x y → Reach y z → Reach x z
Reach-trans r here = r
Reach-trans r (later s m) = later (Reach-trans r s) m

pub one_move : {y z : Pool} → Move y z → Reach y z
one_move m = later here m

-- What the other goroutines do, as runs of steps that end with the same entries on their way and with
-- the workers where they stood.
abbrev pub AreSteps : (Dispatcher → Dispatcher) → Type 0
AreSteps f =
    (d : Dispatcher) (es : List JobEntry) (ws : List Worker)
    → Reach (pool d es ws) (pool (f d) es ws)

abbrev pub WakeSteps : Wake Dispatcher → Type 0
WakeSteps (wake f) = AreSteps f
WakeSteps (done f e) = AreSteps f

pub record MeanwhileSteps (m : Meanwhile) : Type 0 where
  pub wakes : All WakeSteps m.wakes
  pub after_push : AreSteps m.after_push
  pub after_mark : AreSteps m.after_mark

-- A change of fields that no step depends on.
pub fields-Quiet :
    (d d' : Dispatcher)
    → d'.env ≡ d.env
    → d.random_reads ≤ d'.random_reads
    → d'.ready.items ≡ d.ready.items
    → d'.ready.capacity ≡ d.ready.capacity
    → d'.delay_heap ≡ d.delay_heap
    → d'.cancelled ≡ d.cancelled
    → d'.events ≡ d.events
    → Quiet d d'
fields-Quiet d d' a b c room e f g = record {
  env = a;
  random_reads = b;
  items = c;
  capacity = room;
  delay_heap = e;
  cancelled = f;
  begun_same = λ name. ap (begun name) g;
  finished_same = λ name. ap (finished name) g;
}

module _ {es : List JobEntry} {ws : List Worker} where
  pub still_step : {d d' : Dispatcher} → Quiet d d' → Reach (pool d es ws) (pool d' es ws)
  still_step {d' = d'} q = one_move (others d' q)

pub mark_status-AreSteps : (id : Text) (s : Status) → AreSteps (mark_status id s)
unfolding mark_status
mark_status-AreSteps id s d es ws =
    still_step (fields-Quiet d _ refl (omega arith) refl refl refl refl refl)

pub release_job-AreSteps : (name id : Text) → AreSteps (release_job name id)
unfolding release_job
release_job-AreSteps name id d es ws =
    still_step (fields-Quiet d _ refl (omega arith) refl refl refl refl refl)

pub delete_stored-AreSteps : (id : Text) → AreSteps (delete_stored id)
unfolding delete_stored
delete_stored-AreSteps id d es ws = still_step (
    fields-Quiet d _ (ground arith) (ground arith) (ground arith) (ground arith) (ground arith)
      (ground arith) (ground arith))

-- A metric other than the gauge of the running jobs.
abbrev IsOther : MetricEvent → Type 0
IsOther (MetricEvent.running name delta) = ⊥
IsOther _ = Unit

begun-other :
    (name : Text) (e : MetricEvent) (l : List MetricEvent)
    → IsOther e
    → (begun name (e ∷ l) ≡ begun name l) × (finished name (e ∷ l) ≡ finished name l)
unfolding begun finished
begun-other name (MetricEvent.running n delta) l h = absurd h
begun-other name (MetricEvent.queued n delta) l h = (refl, refl)
begun-other name (MetricEvent.completed n t) l h = (refl, refl)
begun-other name (MetricEvent.failed n e) l h = (refl, refl)
begun-other name (MetricEvent.retried n k) l h = (refl, refl)
begun-other name (MetricEvent.dropped n) l h = (refl, refl)
begun-other name (MetricEvent.skipped n) l h = (refl, refl)
begun-other name (MetricEvent.replaced n) l h = (refl, refl)

pub metric-AreSteps : (e : MetricEvent) → IsOther e → AreSteps (metric e)
unfolding metric
metric-AreSteps e h d es ws = still_step (record {
  env = refl;
  random_reads = omega arith;
  items = refl;
  capacity = refl;
  delay_heap = refl;
  cancelled = refl;
  begun_same = λ name. (begun-other name e d.events h).0;
  finished_same = λ name. (begun-other name e d.events h).1;
})

pub log-AreSteps : (e : LogEntry) → AreSteps (log e)
log-AreSteps e d es ws = still_step (fields-Quiet d _ refl (omega arith) refl refl refl refl refl)

-- A receive from the channel of the queue.
pub receive-AreSteps : AreSteps (λ d. put_ready (receive d.ready) d)
receive-AreSteps d es ws = still_step (fields-Quiet d _ refl (omega arith) refl refl refl refl refl)

-- The entries on their way at the end of a part of a call that has one of its own: as given if the
-- part returns, without that entry if it fails, and with it while it waits.
abbrev pub hands : {A : Type 0} → JobEntry → List JobEntry → List JobEntry → Reply A → List JobEntry
hands e es after (returns a) = after
hands e es after (fails x) = es
hands e es after blocks = e ∷ es

-- A part of a call is a run of steps.
abbrev pub Covers :
    {A : Type 0}
    → JobEntry
    → List JobEntry
    → List Worker
    → List JobEntry
    → List JobEntry
    → Dispatcher
    → Reply A × Dispatcher
    → Type 0
Covers e es ws before after d r = Reach (pool d before ws) (pool r.1 (hands e es after r.0) ws)

pub then_call-Covers :
    {A B : Type 0} (e : JobEntry) (es : List JobEntry) (ws : List Worker)
    (before between after : List JobEntry) (d : Dispatcher) (r : Reply A × Dispatcher)
    (f : A → Call B)
    → Covers e es ws before between d r
    → ((a : A) (d' : Dispatcher) → Covers e es ws between after d' (f a d'))
    → Covers e es ws before after d (then_call r f)
then_call-Covers e es ws before between after d (returns a, d') f p q = Reach-trans p (q a d')
then_call-Covers e es ws before between after d (fails x, d') f p q = p
then_call-Covers e es ws before between after d (blocks, d') f p q = p

-- The call gives its entry up.
pub drop_step :
    {e : JobEntry} {es : List JobEntry} {ws : List Worker} {d : Dispatcher}
    → Reach (pool d (e ∷ es) ws) (pool d es ws)
drop_step {e} {es} = one_move (drops [] es e refl)

-- A call is a run of steps: when it is over, none of the entries on their way is its own, and while it
-- waits, there may be some.
pub record CallSteps {A : Type 0} (es : List JobEntry) (ws : List Worker) (d : Dispatcher)
    (r : Reply A × Dispatcher) : Type 0 where
  pub own : List JobEntry
  pub over : r.0 ≢ blocks → own ≡ []
  pub path : Reach (pool d es ws) (pool r.1 (own ++ es) ws)

pub placed-CallSteps :
    {A : Type 0} (es : List JobEntry) (ws : List Worker) (d d₁ : Dispatcher) (e : JobEntry)
    (r : Reply A × Dispatcher)
    → Reach (pool d es ws) (pool d₁ (e ∷ es) ws)
    → Covers e es ws (e ∷ es) es d₁ r
    → CallSteps es ws d r
placed-CallSteps es ws d d₁ e (returns id, d') p q = record {
  own = [];
  over = λ _. refl;
  path = Reach-trans p q;
}
placed-CallSteps es ws d d₁ e (fails x, d') p q = record {
  own = [];
  over = λ _. refl;
  path = Reach-trans p q;
}
placed-CallSteps es ws d d₁ e (blocks, d') p q = record {
  own = e ∷ [];
  over = λ n. absurd (n refl);
  path = Reach-trans p q;
}

-- A part without an entry that is over at once.
pub over-CallSteps :
    {A : Type 0} (es : List JobEntry) (ws : List Worker) (d d' : Dispatcher) (a : A)
    → Reach (pool d es ws) (pool d' es ws)
    → CallSteps es ws d (returns a, d')
over-CallSteps es ws d d' a p = record { own = []; over = λ _. refl; path = p }

-- A part that still waits.
pub waits-CallSteps :
    {A : Type 0} (es : List JobEntry) (ws : List Worker) (d : Dispatcher)
    → CallSteps {A = A} es ws d (blocks, d)
waits-CallSteps es ws d = record { own = []; over = λ n. refl; path = here }

-- Both branches of a test.
pub either-CallSteps :
    {A : Type 0} (es : List JobEntry) (ws : List Worker) (d : Dispatcher) (b : Bool)
    (r t : Reply A × Dispatcher)
    → CallSteps es ws d r
    → CallSteps es ws d t
    → CallSteps es ws d (if b then r else t)
either-CallSteps es ws d true r t p q = p
either-CallSteps es ws d false r t p q = q

pub then_call-CallSteps :
    {A B : Type 0} (es : List JobEntry) (ws : List Worker) (d : Dispatcher)
    (r : Reply A × Dispatcher) (f : A → Call B)
    → CallSteps es ws d r
    → ((a : A) (d' : Dispatcher) → CallSteps es ws d' (f a d'))
    → CallSteps es ws d (then_call r f)
then_call-CallSteps es ws d (returns a, d') f c h =
    let first : Reach (pool d es ws) (pool d' es ws) = rw (c.over (λ q. ground arith)) at c.path in
    let rest = h a d' in
    record { own = rest.own; over = rest.over; path = Reach-trans first rest.path }
then_call-CallSteps es ws d (fails x, d') f c h = record {
  own = [];
  over = λ _. refl;
  path = rw (c.over (λ q. ground arith)) at c.path;
}
then_call-CallSteps es ws d (blocks, d') f c h = record {
  own = c.own;
  over = λ n. absurd (n refl);
  path = c.path;
}
