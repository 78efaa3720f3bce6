-- ===== src/Dispatcher/Submit/Frame.antt =====
-- internal/core/dispatcher.go: what pushing and saving leave alone.
use jobx.Prelude.{◌≡◌, refl, ap, ◌∙◌, Bool, List, [], ◌∷◌, arith, inl, inr, All, Bool-cases}
use jobx.Prelude.Maps.{delete}
use jobx.Text.{Text, text_discrete}
use jobx.Job.{Job, JobEntry}
use jobx.Options.{QueueFullPolicy, queue_full_block, queue_full_drop}
use jobx.ReadyQueue.{
  Wake, wake, done, PushRound, added, refused, waits, PushResult, pushed, failed, blocked,
  push_wait, push, after_push, receive, is_ready,
}
use jobx.InFlight.{release_in_flight}
use jobx.Dispatcher.State.{Dispatcher, Meanwhile, Reply}
use jobx.Dispatcher.Steps.{metric, release_job, persist, delete_stored, get_ready, put_ready}
use jobx.Dispatcher.Submit.{enqueue_ready, enqueued, release_entry}

-- The two agree on the configuration, the in-flight sets and the table of names.
pub record Same (d d' : Dispatcher) : Type 0 where
  pub cfg : d'.cfg ≡ d.cfg
  pub in_flight : d'.in_flight ≡ d.in_flight
  pub job_names : d'.job_names ≡ d.job_names

pub Same-refl : (d : Dispatcher) → Same d d
Same-refl d = record { cfg = refl; in_flight = refl; job_names = refl }

pub Same-trans : {c d e : Dispatcher} → Same c d → Same d e → Same c e
Same-trans s t = record {
  cfg = t.cfg ∙ s.cfg;
  in_flight = t.in_flight ∙ s.in_flight;
  job_names = t.job_names ∙ s.job_names;
}

pub release_entry-Same :
    (entry : JobEntry) (d d' : Dispatcher)
    → Same d d'
    → Same (release_entry entry d) (release_entry entry d')
unfolding release_job
release_entry-Same entry d d' s = record {
  cfg = s.cfg;
  in_flight =
      ap (λ c. release_in_flight c.conflict entry.job.name entry.job.id d'.in_flight) s.cfg
      ∙ ap (release_in_flight d.cfg.conflict entry.job.name entry.job.id) s.in_flight;
  job_names = ap (delete text_discrete entry.job.id) s.job_names;
}

-- The other goroutines leave the three alone.
abbrev pub IsQuiet : (Dispatcher → Dispatcher) → Type 0
IsQuiet others = (d : Dispatcher) → Same d (others d)

abbrev pub QuietWake : Wake Dispatcher → Type 0
QuietWake (wake others) = IsQuiet others
QuietWake (done others e) = IsQuiet others

pub record QuietMeanwhile (m : Meanwhile) : Type 0 where
  pub wakes : All QuietWake m.wakes
  pub after_push : IsQuiet m.after_push
  pub after_mark : IsQuiet m.after_mark

after_push-Same :
    (r : PushRound) (base d : Dispatcher) (rest : Dispatcher × PushResult)
    → Same base d
    → Same base rest.0
    → Same base (after_push get_ready put_ready r d rest).0
after_push-Same (added q) base d rest s t = record {
  cfg = s.cfg;
  in_flight = s.in_flight;
  job_names = s.job_names;
}
after_push-Same (refused e) base d rest s t = s
after_push-Same waits base d rest s t = t

push_wait-Same :
    (wakes : List (Wake Dispatcher)) (base d : Dispatcher) (entry : JobEntry) (drop : Bool)
    → All QuietWake wakes
    → Same base d
    → Same base (push_wait get_ready put_ready wakes d entry drop).0
unfolding push_wait
push_wait-Same [] base d entry drop q s = s
push_wait-Same (done others e ∷ wakes) base d entry drop q s = Same-trans s (q.0 d)
push_wait-Same (wake others ∷ wakes) base d entry drop q s =
    let s' = Same-trans s (q.0 d) in
    let d' = put_ready (receive (get_ready (others d))) (others d) in
    let s'' : Same base d' = record {
      cfg = s'.cfg;
      in_flight = s'.in_flight;
      job_names = s'.job_names;
    } in
    elim (Bool-cases (is_ready (get_ready (others d)))) [
      | inl ready ↦
          rw (ready, push_wait)
            (after_push-Same _ base d' _ s'' (push_wait-Same wakes base d' entry drop q.1 s''))
      | inr not_ready ↦
          rw (not_ready, push_wait) (push_wait-Same wakes base (others d) entry drop q.1 s')
    ]

pub push-Same :
    (wakes : List (Wake Dispatcher)) (d : Dispatcher) (entry : JobEntry) (drop : Bool)
    → All QuietWake wakes
    → Same d (push get_ready put_ready wakes d entry drop).0
unfolding push
push-Same wakes d entry drop q =
    after_push-Same _ d d _ (Same-refl d) (push_wait-Same wakes d d entry drop q (Same-refl d))

-- A call that keeps the three, however it ends.
abbrev pub Keeps : {A : Type 0} → Dispatcher → Reply A × Dispatcher → Type 0
Keeps base r = Same base r.1

pub persist-Keeps : (job : Job) (base d : Dispatcher) → Same base d → Keeps base (persist job d)
unfolding persist
persist-Keeps job base d s = record {
  cfg = ground arith;
  in_flight = ground arith;
  job_names = ground arith;
}

enqueued-Keeps :
    (p : QueueFullPolicy) (name : Text) (base : Dispatcher) (r : Dispatcher × PushResult)
    → Same base r.0
    → Keeps base (enqueued p name r)
unfolding enqueued metric
enqueued-Keeps p name base (d, pushed) t = t
enqueued-Keeps p name base (d, blocked) t = t
enqueued-Keeps queue_full_drop name base (d, failed e) t = record {
  cfg = t.cfg;
  in_flight = t.in_flight;
  job_names = t.job_names;
}
enqueued-Keeps queue_full_block name base (d, failed e) t = t

pub enqueue_ready-Keeps :
    (wakes : List (Wake Dispatcher)) (entry : JobEntry) (base d : Dispatcher)
    → All QuietWake wakes
    → Same base d
    → Keeps base (enqueue_ready wakes entry d)
unfolding enqueue_ready
enqueue_ready-Keeps wakes entry base d q s =
    enqueued-Keeps d.cfg.queue_policy entry.job.name base _
      (Same-trans s (push-Same wakes d entry _ q))

pub delete_stored-Same : (id : Text) (d : Dispatcher) → Same d (delete_stored id d)
unfolding delete_stored
delete_stored-Same id d = record {
  cfg = ground arith;
  in_flight = ground arith;
  job_names = ground arith;
}
