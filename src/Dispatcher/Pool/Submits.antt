-- ===== src/Dispatcher/Pool/Submits.antt =====
-- internal/core/dispatcher.go: a submission is a run of steps of the pool.
use jobx.Prelude.{
  ◌≡◌, refl, Bool, true, false, List, [], ◌∷◌, ◌++◌, arith, All, Bool-cases, inl, inr,
  if◌then◌else◌,
}
use jobx.Prelude.Maps.{insert}
use jobx.Text.{Text, text_discrete}
use jobx.Clock.{is_zero}
use jobx.Errors.{Result, ok, err}
use jobx.Job.{JobEntry, SubmitOption, apply_options, empty_spec}
use jobx.Options.{QueueFullPolicy, queue_full_block, queue_full_drop}
use jobx.ReadyQueue.{
  receive, is_ready, Wake, wake, done, PushRound, added, refused, waits, push_round, push_wait,
  push, after_push, PushResult, pushed, failed, blocked,
}
use jobx.Status
use jobx.InFlight.{Claim, claimed, taken, claim}
use jobx.Metrics.{MetricEvent}
use jobx.Dispatcher.State.{
  Dispatcher, Meanwhile, Reply, returns, fails, blocks, Call, then_call, ◌>>=◌, on_error, cleaned,
  lift,
}
use jobx.Dispatcher.Steps.{persist, get_ready, put_ready}
use jobx.Dispatcher.Submit.{
  build_entry, cancel_all, note_replaced, apply_claim, apply_conflict, enqueued, enqueue_ready,
  release_entry, withdraw, note_submitted, enqueue_persisted, submit_ready, delay_persisted,
  submit_delayed, is_due, submit_when, submit_entry, submit_claimed, submit_with_options,
}
use jobx.Dispatcher.Pool.{Worker, builds, queues, delays, cancels, Reach, here, made}
use jobx.Dispatcher.Pool.Paths.{
  pool, Reach-trans, one_move, WakeSteps, MeanwhileSteps, fields-Quiet, still_step,
  mark_status-AreSteps, release_job-AreSteps, delete_stored-AreSteps, metric-AreSteps, log-AreSteps,
  receive-AreSteps, Covers, CallSteps, placed-CallSteps, then_call-Covers, drop_step,
}

module _ (e : JobEntry) (es : List JobEntry) (ws : List Worker) where
  -- The entries on their way when `push` is over.
  abbrev pub after_hands : PushResult → List JobEntry
  after_hands pushed = es
  after_hands (failed x) = e ∷ es
  after_hands blocked = e ∷ es

  abbrev pub PushSteps : Dispatcher → Dispatcher × PushResult → Type 0
  PushSteps d r = Reach (pool d (e ∷ es) ws) (pool r.0 (after_hands r.1) ws)

  round-PushSteps :
      (drop : Bool) (r : PushRound) (d : Dispatcher) (rest : Dispatcher × PushResult)
      → push_round d.ready e drop ≡ r
      → PushSteps d rest
      → PushSteps d (after_push get_ready put_ready r d rest)
  round-PushSteps drop (added q) d rest h p = one_move (queues [] es e drop q refl h)
  round-PushSteps drop (refused x) d rest h p = here
  round-PushSteps drop waits d rest h p = p

  push_wait-PushSteps :
      (drop : Bool) (wakes : List (Wake Dispatcher)) (d : Dispatcher)
      → All WakeSteps wakes
      → PushSteps d (push_wait get_ready put_ready wakes d e drop)
  unfolding push_wait
  push_wait-PushSteps drop [] d h = here
  push_wait-PushSteps drop (done f x ∷ wakes) d h = h.0 d (e ∷ es) ws
  push_wait-PushSteps drop (wake f ∷ wakes) d h =
      let first = h.0 d (e ∷ es) ws in
      let d' = put_ready (receive (get_ready (f d))) (f d) in
      elim (Bool-cases (is_ready (get_ready (f d)))) [
        | inl ready ↦
            rw (ready, push_wait)
              (Reach-trans (Reach-trans first (receive-AreSteps (f d) (e ∷ es) ws))
                (round-PushSteps drop _ d' _ refl (push_wait-PushSteps drop wakes d' h.1)))
        | inr not_ready ↦
            rw (not_ready, push_wait) (Reach-trans first (push_wait-PushSteps drop wakes (f d) h.1))
      ]

  pub push-PushSteps :
      (drop : Bool) (wakes : List (Wake Dispatcher)) (d : Dispatcher)
      → All WakeSteps wakes
      → PushSteps d (push get_ready put_ready wakes d e drop)
  unfolding push
  push-PushSteps drop wakes d h =
      round-PushSteps drop _ d _ refl (push_wait-PushSteps drop wakes d h)

  -- A part of the submission that has the entry in its hands and keeps it.
  abbrev Held : {A : Type 0} → Dispatcher → Reply A × Dispatcher → Type 0
  Held d r = Covers e es ws (e ∷ es) (e ∷ es) d r

  -- A part that places it.
  abbrev Placed : {A : Type 0} → Dispatcher → Reply A × Dispatcher → Type 0
  Placed d r = Covers e es ws (e ∷ es) es d r

  withdraw-AreSteps : (d : Dispatcher) → Reach (pool d (e ∷ es) ws) (pool (withdraw e d) es ws)
  withdraw-AreSteps d =
      Reach-trans (delete_stored-AreSteps e.job.id d (e ∷ es) ws)
        (Reach-trans (release_job-AreSteps e.job.name e.job.id _ (e ∷ es) ws) drop_step)

  -- What an error of `push` leads to.
  enqueued-Placed :
      (policy : QueueFullPolicy) (d : Dispatcher) (r : Dispatcher × PushResult)
      → PushSteps d r
      → Placed d (cleaned (withdraw e) (enqueued policy e.job.name r))
  unfolding enqueued
  enqueued-Placed policy d (d', pushed) p = p
  enqueued-Placed policy d (d', blocked) p = p
  enqueued-Placed queue_full_drop d (d', failed x) p = Reach-trans p (
      Reach-trans (metric-AreSteps (MetricEvent.dropped e.job.name) tt d' (e ∷ es) ws)
        (withdraw-AreSteps _))
  enqueued-Placed queue_full_block d (d', failed x) p = Reach-trans p (withdraw-AreSteps d')

  enqueue_ready-Placed :
      (wakes : List (Wake Dispatcher)) (d : Dispatcher)
      → All WakeSteps wakes
      → Placed d (on_error (withdraw e) (enqueue_ready wakes e) d)
  unfolding enqueue_ready
  enqueue_ready-Placed wakes d h = enqueued-Placed _ d _ (push-PushSteps _ wakes d h)

  released-Held :
      {A : Type 0} (d : Dispatcher) (r : Reply A × Dispatcher)
      → Reach (pool d (e ∷ es) ws) (pool r.1 (e ∷ es) ws)
      → Held d (cleaned (release_entry e) r)
  released-Held d (returns a, d') p = p
  released-Held d (fails x, d') p =
      Reach-trans p
        (Reach-trans (release_job-AreSteps e.job.name e.job.id d' (e ∷ es) ws) drop_step)
  released-Held d (blocks, d') p = p

  persisted-Held : (d : Dispatcher) → Held d (on_error (release_entry e) (persist e.job) d)
  unfolding persist
  persisted-Held d = released-Held d (persist e.job d) (
      still_step (
        fields-Quiet d (persist e.job d).1 (ground arith) (ground arith) (ground arith)
          (ground arith) (ground arith) (ground arith) (ground arith)))

  note_submitted-Placed :
      (m : Meanwhile) (d : Dispatcher)
      → MeanwhileSteps m
      → Covers e es ws es es d (note_submitted m e d)
  unfolding note_submitted
  note_submitted-Placed m d h = Reach-trans (h.after_push d es ws) (
      Reach-trans
        (Reach-trans (mark_status-AreSteps e.job.id Status.queued _ es ws) (h.after_mark _ es ws))
        (Reach-trans (metric-AreSteps _ tt _ es ws) (log-AreSteps _ _ es ws)))

  submit_ready-Placed :
      (m : Meanwhile) (d : Dispatcher) → MeanwhileSteps m → Placed d (submit_ready m e d)
  unfolding submit_ready enqueue_persisted
  submit_ready-Placed m d h = then_call-Covers e es ws _ _ _ d _ _ (persisted-Held d) λ _ d₁.
      then_call-Covers e es ws _ _ _ d₁ _ _ (enqueue_ready-Placed m.wakes d₁ h.wakes)
        λ _ d₂. note_submitted-Placed m d₂ h

  submit_delayed-Placed :
      (m : Meanwhile) (d : Dispatcher) → MeanwhileSteps m → Placed d (submit_delayed m e d)
  unfolding submit_delayed delay_persisted
  submit_delayed-Placed m d h = then_call-Covers e es ws _ _ _ d _ _ (persisted-Held d) λ _ d₁.
      Reach-trans (Reach-trans (one_move (delays [] es e refl)) (h.after_push _ es ws)) (
        Reach-trans (mark_status-AreSteps e.job.id Status.delayed _ es ws)
          (Reach-trans (h.after_mark _ es ws) (log-AreSteps _ _ es ws)))

  submit_when-Placed :
      (due : Bool) (m : Meanwhile) (d : Dispatcher)
      → MeanwhileSteps m
      → Placed d (submit_when due m e d)
  submit_when-Placed true m d h = submit_ready-Placed m d h
  submit_when-Placed false m d h = submit_delayed-Placed m d h

  -- Both branches of a test.
  either-Covers :
      {A : Type 0} (b : Bool) (before after : List JobEntry) (d : Dispatcher)
      (r t : Reply A × Dispatcher)
      → Covers e es ws before after d r
      → Covers e es ws before after d t
      → Covers e es ws before after d (if b then r else t)
  either-Covers true before after d r t p q = p
  either-Covers false before after d r t p q = q

  is_due-Held : (d : Dispatcher) → Held d (is_due e.job.run_at d)
  is_due-Held d = elim (Bool-cases (is_zero e.job.run_at)) [
    | inl unset ↦ rw unset here
    | inr later ↦
        rw later (still_step (fields-Quiet d _ refl (omega arith) refl refl refl refl refl))
  ]

  submit_entry-Placed :
      (m : Meanwhile) (d : Dispatcher) → MeanwhileSteps m → Placed d (submit_entry m e d)
  unfolding submit_entry
  submit_entry-Placed m d h =
      then_call-Covers e es ws _ _ _ d _ _ (is_due-Held d) λ due d₁. submit_when-Placed due m d₁ h

  submit_claimed-Placed :
      (m : Meanwhile) (d : Dispatcher) → MeanwhileSteps m → Placed d (submit_claimed m e d)
  unfolding submit_claimed
  submit_claimed-Placed m d h =
      let d₁ = record d { job_names = insert text_discrete e.job.id e.job.name d.job_names } in
      Reach-trans (still_step (fields-Quiet d d₁ refl (omega arith) refl refl refl refl refl)) (
        either-Covers d.running (e ∷ es) es d₁ _ _ (submit_entry-Placed m d₁ h)
          (Reach-trans (release_job-AreSteps e.job.name e.job.id d₁ (e ∷ es) ws) drop_step))

  cancel_all-Held :
      (ids : List Text) (d : Dispatcher)
      → Reach (pool d (e ∷ es) ws) (pool (cancel_all ids d) (e ∷ es) ws)
  unfolding cancel_all
  cancel_all-Held [] d = here
  cancel_all-Held (id ∷ ids) d = Reach-trans (one_move (cancels id)) (cancel_all-Held ids _)

  note_replaced-Held :
      (ids : List Text) (d : Dispatcher)
      → Reach (pool d (e ∷ es) ws) (pool (note_replaced ids e.job d) (e ∷ es) ws)
  unfolding note_replaced
  note_replaced-Held [] d = here
  note_replaced-Held (id ∷ ids) d =
      Reach-trans (metric-AreSteps _ tt d (e ∷ es) ws) (log-AreSteps _ _ (e ∷ es) ws)

  apply_claim-Held : (c : Claim) (d : Dispatcher) → Held d (apply_claim c e d)
  unfolding apply_claim
  apply_claim-Held taken d =
      Reach-trans (metric-AreSteps _ tt d (e ∷ es) ws)
        (Reach-trans (log-AreSteps _ _ (e ∷ es) ws) drop_step)
  apply_claim-Held (claimed sets olds) d =
      Reach-trans (still_step (fields-Quiet d _ refl (omega arith) refl refl refl refl refl))
        (Reach-trans (cancel_all-Held olds _) (note_replaced-Held olds _))

-- The rest of a submission after `buildEntry`.
built-CallSteps :
    (es : List JobEntry) (ws : List Worker) (m : Meanwhile) (d : Dispatcher)
    (r : Reply JobEntry × Dispatcher)
    → MeanwhileSteps m
    → Reach (pool d es ws) (pool r.1 (made r.0 ++ es) ws)
    → CallSteps es ws d (then_call r λ entry. apply_conflict entry >>= λ _. submit_claimed m entry)
unfolding apply_conflict
built-CallSteps es ws m d (returns e, d₁) h p =
    let claimed_path =
      apply_claim-Held e es ws (claim d₁.cfg.conflict e.job.name e.job.id d₁.in_flight) d₁ in
    let path =
      then_call-Covers e es ws (e ∷ es) (e ∷ es) es d₁ (apply_conflict e d₁)
        (λ _. submit_claimed m e) claimed_path (λ _ d₂. submit_claimed-Placed e es ws m d₂ h) in
    placed-CallSteps es ws d d₁ e _ p path
built-CallSteps es ws m d (fails x, d₁) h p = record { own = []; over = λ _. refl; path = p }
built-CallSteps es ws m d (blocks, d₁) h p = record { own = []; over = λ _. refl; path = p }

lifted-CallSteps :
    {A : Type 0} (es : List JobEntry) (ws : List Worker) (d : Dispatcher) (r : Result A)
    (f : A → Call Text)
    → ((a : A) → CallSteps es ws d (f a d))
    → CallSteps es ws d (then_call (lift r d) f)
lifted-CallSteps es ws d (ok a) f h = h a
lifted-CallSteps es ws d (err x) f h = record { own = []; over = λ _. refl; path = here }

-- `SubmitWithOptions`, with whatever complete steps of the others while it waits and before it returns,
-- is a run of steps of the pool: it builds an entry, which it places or drops before it returns, and
-- has on its hands while it waits for room. So what holds in every reachable state of the pool holds
-- between and after submissions.
pub submit_with_options-CallSteps :
    (m : Meanwhile) (name payload : Text) (opts : List SubmitOption) (d : Dispatcher)
    (es : List JobEntry) (ws : List Worker)
    → MeanwhileSteps m
    → CallSteps es ws d (submit_with_options m name payload opts d)
unfolding submit_with_options
submit_with_options-CallSteps m name payload opts d es ws h =
    lifted-CallSteps es ws d (apply_options opts empty_spec) _ λ spec.
      built-CallSteps es ws m d (build_entry name payload spec d) h
        (one_move (builds name payload spec))
