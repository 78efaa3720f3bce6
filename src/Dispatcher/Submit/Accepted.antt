-- ===== src/Dispatcher/Submit/Accepted.antt =====
-- internal/core/dispatcher.go: a submission that succeeds.
use jobx.Prelude.{◌≡◌, refl, ap, Bool, true, false, List, ◌⊎◌, inl, inr, arith, if◌then◌else◌}
use jobx.Text.{Text}
use jobx.Errors.{Result, ok, err}
use jobx.Job.{JobEntry, SubmitOption, apply_options, empty_spec}
use jobx.Status.{Status}
use jobx.Status
use jobx.Status.Table.{job_status-mark_status}
use jobx.Dispatcher.State.{
  Dispatcher, Meanwhile, Reply, returns, fails, blocks, Call, then_call, on_error, lift,
}
use jobx.Dispatcher.Steps.{mark_status, metric, push_delayed, persist}
use jobx.Dispatcher.Submit.{
  build_entry, apply_conflict, release_entry, withdraw, enqueue_ready, note_submitted,
  enqueue_persisted, submit_ready, delay_persisted, submit_delayed, is_due, submit_when,
  submit_entry, submit_claimed, submit_with_options,
}
use jobx.Dispatcher.Submit.Rollback.{build_entry-returns}

-- A call that returned a value did so in both of its parts.
pub then_call-returns :
    {A B : Type 0} (r : Reply A × Dispatcher) (f : A → Call B) (b : B) (d' : Dispatcher)
    → then_call r f ≡ (returns b, d')
    → (a : A) × (d : Dispatcher) × (r ≡ (returns a, d)) × (f a d ≡ (returns b, d'))
then_call-returns (returns a, d) f b d' h = (a, d, refl, h)
then_call-returns (fails x, d) f b d' h = absurd (ground arith)
then_call-returns (blocks, d) f b d' h = absurd (ground arith)

-- The call reports the job as queued or delayed, and what the others do then makes the table that it
-- leaves.
pub record IsMarked (m : Meanwhile) (id : Text) (d : Dispatcher) : Type 0 where
  pub marked : Dispatcher
  pub status :
      (Status.job_status id marked.table ≡ ok Status.queued)
      ⊎ (Status.job_status id marked.table ≡ ok Status.delayed)
  pub after : d.table ≡ (m.after_mark marked).table

abbrev AcceptsAs : Meanwhile → Text → Reply Text × Dispatcher → Type 0
AcceptsAs m own (returns id, d) = (id ≡ own) × IsMarked m own d
AcceptsAs m own (fails e, d) = Unit
AcceptsAs m own (blocks, d) = Unit

then_call-AcceptsAs :
    {A : Type 0} (m : Meanwhile) (own : Text) (r : Reply A × Dispatcher) (f : A → Call Text)
    → ((a : A) (d : Dispatcher) → AcceptsAs m own (f a d))
    → AcceptsAs m own (then_call r f)
then_call-AcceptsAs m own (returns a, d) f h = h a d
then_call-AcceptsAs m own (fails e, d) f h = tt
then_call-AcceptsAs m own (blocks, d) f h = tt

module _ (m : Meanwhile) (entry : JobEntry) where
  note_submitted-AcceptsAs : (d : Dispatcher) → AcceptsAs m entry.job.id (note_submitted m entry d)
  unfolding note_submitted metric mark_status
  note_submitted-AcceptsAs d = (
    refl,
    record {
      marked = mark_status entry.job.id Status.queued (m.after_push d);
      status = inl (job_status-mark_status entry.job.id Status.queued (m.after_push d).table);
      after = refl;
    },
  )

  delay_persisted-AcceptsAs :
      (d : Dispatcher) → AcceptsAs m entry.job.id (delay_persisted m entry d)
  unfolding delay_persisted mark_status
  delay_persisted-AcceptsAs d = (
    refl,
    record {
      marked = mark_status entry.job.id Status.delayed (m.after_push (push_delayed entry d));
      status = inr (
          job_status-mark_status entry.job.id Status.delayed
            (m.after_push (push_delayed entry d)).table);
      after = refl;
    },
  )

  submit_when-AcceptsAs :
      (due : Bool) (d : Dispatcher) → AcceptsAs m entry.job.id (submit_when due m entry d)
  unfolding submit_ready submit_delayed enqueue_persisted
  submit_when-AcceptsAs true d =
      then_call-AcceptsAs m entry.job.id (on_error (release_entry entry) (persist entry.job) d)
        (λ _. enqueue_persisted m entry)
        (λ _ d₁.
          then_call-AcceptsAs m entry.job.id
            (on_error (withdraw entry) (enqueue_ready m.wakes entry) d₁)
            (λ _. note_submitted m entry) (λ _. note_submitted-AcceptsAs))
  submit_when-AcceptsAs false d =
      then_call-AcceptsAs m entry.job.id (on_error (release_entry entry) (persist entry.job) d)
        (λ _. delay_persisted m entry) (λ _. delay_persisted-AcceptsAs)

  submit_entry-AcceptsAs : (d : Dispatcher) → AcceptsAs m entry.job.id (submit_entry m entry d)
  unfolding submit_entry
  submit_entry-AcceptsAs d =
      then_call-AcceptsAs m entry.job.id (is_due entry.job.run_at d)
        (λ due. submit_when due m entry) submit_when-AcceptsAs

  either-AcceptsAs :
      (b : Bool) (x y : Reply Text × Dispatcher)
      → AcceptsAs m entry.job.id x
      → AcceptsAs m entry.job.id y
      → AcceptsAs m entry.job.id (if b then x else y)
  either-AcceptsAs true x y p q = p
  either-AcceptsAs false x y p q = q

  submit_claimed-AcceptsAs : (d : Dispatcher) → AcceptsAs m entry.job.id (submit_claimed m entry d)
  unfolding submit_claimed
  submit_claimed-AcceptsAs d = either-AcceptsAs d.running _ _ (submit_entry-AcceptsAs _) tt

accepted :
    (m : Meanwhile) (own id : Text) (r : Reply Text × Dispatcher) (d' : Dispatcher)
    → AcceptsAs m own r
    → r ≡ (returns id, d')
    → (id ≡ own) × IsMarked m own d'
accepted m own id r d' a e = rw e at a

lift-dispatcher :
    {A : Type 0} (r : Result A) (d d' : Dispatcher) (a : A) → lift r d ≡ (returns a, d') → d ≡ d'
lift-dispatcher (ok x) d d' a h = ap (λ r. r.1) h
lift-dispatcher (err x) d d' a h = absurd (ground arith)

-- A submission that returns an id returns the one that the random source gave and reports the job as
-- queued or delayed, whatever the other goroutines did while `push` waited and until then, even if a
-- worker has already finished the job; what they do to the status after that, and before the call
-- returns, stands.
pub submit_with_options-status :
    (m : Meanwhile) (name payload : Text) (opts : List SubmitOption) (d d' : Dispatcher) (id : Text)
    → submit_with_options m name payload opts d ≡ (returns id, d')
    → (d.env.random_hex d.random_reads ≡ ok id) × IsMarked m id d'
unfolding submit_with_options
submit_with_options-status m name payload opts d d' id h =
    let (spec, d₁, lifted, h₁) =
      then_call-returns (lift (apply_options opts empty_spec) d) _ id d' h in
    let (entry, d₂, built, h₂) = then_call-returns (build_entry name payload spec d₁) _ id d' h₁ in
    let (_, d₃, claimed, h₃) =
      then_call-returns (apply_conflict entry d₂) (λ _. submit_claimed m entry) id d' h₂ in
    let (own, a) = accepted m entry.job.id id _ d' (submit_claimed-AcceptsAs m entry d₃) h₃ in
    let read = build_entry-returns name payload spec d₁ entry (ap (λ r. r.0) built) in
    let same = lift-dispatcher (apply_options opts empty_spec) d d₁ spec lifted in
    (rw (same, own) read, rw own a)
