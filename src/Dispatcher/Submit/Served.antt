-- ===== src/Dispatcher/Submit/Served.antt =====
-- internal/core/dispatcher.go and internal/core/worker.go: a job from its submission to its end.
use jobx.Prelude.{
  ◌≡◌, ◌≢◌, sym, ap, ◌∙◌, true, false, List, [], ◌∷◌, ◌++◌, some, arith, Option-cases, inl, inr,
}
use jobx.Prelude.Maps.{lookup, contains}
use jobx.Text.{Text, text_discrete}
use jobx.Errors.{Result, ok}
use jobx.Job.{JobEntry, JobSpec, SubmitOption, apply_options, empty_spec}
use jobx.Options.{conflict_replace}
use jobx.ReadyQueue.{
  ReadyQueue, PushRound, added, refused, waits, push_round, push, push_wait, after_push, PushResult,
  pushed, failed, blocked, pop, pop_round, pop_items, after_pop, idle,
}
use jobx.ReadyQueue
use jobx.Status
use jobx.Dispatcher.State.{Dispatcher, Handler, alone, lift, ◌>>=◌, then_call, returns}
use jobx.Dispatcher.Steps.{is_cancelled, get_ready, put_ready}
use jobx.Dispatcher.Submit.{build_entry, apply_conflict, submit_claimed, submit_with_options}
use jobx.Dispatcher.Submit.Accepted.{then_call-returns}
use jobx.Dispatcher.Run.{hand_over, run_entry, worked, worker_round}
use jobx.Dispatcher.Run.Ends.{started, end_status, run_entry-status}
use jobx.Dispatcher.Submit.Queues.{
  Still, Still-trans, Queued, Still-Queued, submit_claimed-Queued, apply_conflict-Still,
}

-- The entry that a submission makes of its arguments.
pub record IsMade (name payload : Text) (spec : JobSpec) (d : Dispatcher) (e : JobEntry)
    : Type 0 where
  pub id : d.env.random_hex d.random_reads ≡ ok e.job.id
  pub named : e.job.name ≡ name
  pub payload_is : e.job.payload ≡ payload
  pub run_at : e.job.run_at ≡ spec.run_at
  pub retries : e.job.max_retries ≡ spec.max_retries
  pub delay : e.job.retry_delay ≡ spec.retry_delay
  pub limit : e.job.timeout ≡ spec.timeout
  pub first : e.job.attempt ≡ 0
  pub handler : Handler
  pub found : lookup text_discrete name d.handlers ≡ some handler

build_entry-handler :
    (name payload : Text) (spec : JobSpec) (d d' : Dispatcher) (e : JobEntry)
    → build_entry name payload spec d ≡ (returns e, d')
    → (f : Handler) × (lookup text_discrete name d.handlers ≡ some f)
unfolding build_entry
build_entry-handler name payload spec d d' e h =
    elim (Option-cases (lookup text_discrete name d.handlers)) [
      | inl missing ↦ absurd (ground (arith, h, missing))
      | inr found ↦ found
    ]

build_entry-Still :
    (name payload : Text) (spec : JobSpec) (d d' : Dispatcher) (e : JobEntry)
    → build_entry name payload spec d ≡ (returns e, d')
    → Still d d' × (d'.cfg ≡ d.cfg) × IsMade name payload spec d e
unfolding build_entry
build_entry-Still name payload spec d d' e h = (
  record {
    alike = record { handlers = ground (arith, h); cancelled = ground (arith, h) };
    ready = ground (arith, h);
  },
  ground (arith, h),
  record {
    id = ground (arith, h);
    named = ground (arith, h);
    payload_is = ground (arith, h);
    run_at = ground (arith, h);
    retries = ground (arith, h);
    delay = ground (arith, h);
    limit = ground (arith, h);
    first = ground (arith, h);
    handler = (build_entry-handler name payload spec d d' e h).0;
    found = (build_entry-handler name payload spec d d' e h).1;
  },
)

-- What a round of a worker does that finds an entry.
worker_round-got :
    (f : Dispatcher → Dispatcher) (e : JobEntry) (rest : List JobEntry) (d : Dispatcher)
    → d.ready.items ≡ e ∷ rest
    → worker_round [] f d ≡ (
      returns true,
      run_entry f e (put_ready (ReadyQueue.signal (record d.ready { items = rest })) d),
    )
unfolding worker_round worked pop pop_round pop_items ReadyQueue.pop_wait
worker_round-got f e rest d h =
    ap (λ l. worked f (after_pop get_ready put_ready (pop_items l d.ready) d (d, idle))) h

-- The dispatcher with the queue as `pop` leaves it.
abbrev emptied : Dispatcher → Dispatcher
emptied d = put_ready (ReadyQueue.signal (record d.ready { items = [] })) d

-- What becomes of a job that was submitted, when a worker takes it.
pub record IsServed (name payload : Text) (spec : JobSpec) (d d' : Dispatcher) (id : Text)
    (f : Dispatcher → Dispatcher) : Type 0 where
  pub entry : JobEntry
  pub made : IsMade name payload spec d entry
  pub same : id ≡ entry.job.id
  pub round : worker_round [] f d' ≡ (returns true, run_entry f entry (emptied d'))
  pub status :
      Status.job_status id (worker_round [] f d').1.table
      ≡ ok (
          end_status
            (some made.handler)
            (is_cancelled id (f (hand_over entry.job (started entry (emptied d')))))
            entry.job)

same_marks :
    (id : Text) (d d' : Dispatcher)
    → d'.cancelled ≡ d.cancelled
    → is_cancelled id d' ≡ is_cancelled id d
unfolding is_cancelled
same_marks id d d' h = ap (contains text_discrete id) h

served :
    (name payload : Text) (spec : JobSpec) (d d' : Dispatcher) (id : Text)
    (f : Dispatcher → Dispatcher) (e : JobEntry)
    → IsMade name payload spec d e
    → id ≡ e.job.id
    → Queued e d d'
    → d.ready.items ≡ []
    → is_cancelled id d ≡ false
    → IsServed name payload spec d d' id f
served name payload spec d d' id f e made same q empty fresh =
    let first : d'.ready.items ≡ e ∷ [] = q.items ∙ ap (λ l. l ++ (e ∷ [])) empty in
    let round = worker_round-got f e [] d' first in
    let kept : is_cancelled e.job.id (emptied d') ≡ false =
      same_marks e.job.id d (emptied d') q.alike.cancelled
      ∙ (ap (λ i. is_cancelled i d) (sym same) ∙ fresh) in
    let found : lookup text_discrete e.job.name (emptied d').handlers ≡ some made.handler =
      rw (q.alike.handlers, made.named) made.found in
    record {
      entry = e;
      made = made;
      same = same;
      round = round;
      status =
          rw (same, round)
            (run_entry-status f e (emptied d') kept
              ∙ ap
                  (λ o. ok (
                    end_status o
                      (is_cancelled e.job.id (f (hand_over e.job (started e (emptied d'))))) e.job))
                  found);
    }

-- A job that is submitted to be run at once, under the skip or the allow policy and to an empty queue,
-- while no other goroutine interferes with the submission, is run by the next round of a worker: the
-- submission returns the id of an entry with the name, the payload and the run time, retries, retry
-- delay and timeout of the options that were submitted, the round runs the handler of that name with
-- it, and `JobStatus` then answers as the end of the execution calls for, whatever the handler and the
-- other goroutines do while the handler runs, if the others do nothing else during the round.
pub submit_with_options-IsServed :
    (name payload : Text) (opts : List SubmitOption) (spec : JobSpec) (d d' : Dispatcher)
    (id : Text) (f : Dispatcher → Dispatcher)
    → apply_options opts empty_spec ≡ ok spec
    → spec.run_at ≡ 0
    → d.cfg.conflict ≢ conflict_replace
    → d.ready.items ≡ []
    → is_cancelled id d ≡ false
    → submit_with_options alone name payload opts d ≡ (returns id, d')
    → IsServed name payload spec d d' id f
unfolding submit_with_options
submit_with_options-IsServed name payload opts spec d d' id f valid unset keep empty fresh h =
    let rest = λ (r : Result JobSpec).
      then_call (lift r d)
        λ s. build_entry name payload s >>= λ e. apply_conflict e >>= λ _. submit_claimed alone e in
    let (e, d₁, built, h₁) =
      then_call-returns (build_entry name payload spec d)
        (λ e. apply_conflict e >>= λ _. submit_claimed alone e) id d' (sym (ap rest valid) ∙ h) in
    let (_, d₂, admitted, h₂) =
      then_call-returns (apply_conflict e d₁) (λ _. submit_claimed alone e) id d' h₁ in
    let (still, cfg, made) = build_entry-Still name payload spec d d₁ e built in
    let gentle : d₁.cfg.conflict ≢ conflict_replace =
      λ is. keep (sym (ap (λ c. c.conflict) cfg) ∙ is) in
    let (q, same) = submit_claimed-Queued e d₂ d' id (made.run_at ∙ unset) h₂ in
    served name payload spec d d' id f e made same
      (Still-Queued (Still-trans still (apply_conflict-Still e d₁ d₂ gentle admitted)) q) empty
      fresh
