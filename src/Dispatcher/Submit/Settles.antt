-- ===== src/Dispatcher/Submit/Settles.antt =====
-- internal/core/dispatcher.go: a submission that fails has released its entry.
use jobx.Prelude.{Bool, true, false, inl, inr, Bool-cases, ◌==◌}
use jobx.Job.{JobEntry}
use jobx.Dispatcher.State.{
  Dispatcher, Meanwhile, Reply, returns, fails, blocks, Call, then_call, cleaned, on_error,
}
use jobx.Dispatcher.Steps.{mark_status, metric, persist, push_delayed}
use jobx.Dispatcher.Submit.{
  enqueue_ready, note_submitted, enqueue_persisted, withdraw, delay_persisted, submit_when,
  submit_ready, submit_delayed, submit_entry, release_entry, is_due,
}
use jobx.Status
use jobx.Dispatcher.Submit.Frame.{
  Same, Same-trans, release_entry-Same, QuietMeanwhile, Keeps, persist-Keeps, enqueue_ready-Keeps,
  delete_stored-Same,
}

-- A call that keeps the three, but for a failure, after which the entry is released.
abbrev pub SettlesAs : {A : Type 0} → JobEntry → Dispatcher → Reply A × Dispatcher → Type 0
SettlesAs entry base (returns a, d) = Same base d
SettlesAs entry base (fails e, d) = Same (release_entry entry base) d
SettlesAs entry base (blocks, d) = Unit

pub record Settles {A : Type 0} (entry : JobEntry) (base : Dispatcher) (r : Reply A × Dispatcher)
    : Type 0 where
  pub as_said : SettlesAs entry base r

cleaned-Settles :
    {A : Type 0} (undo : Dispatcher → Dispatcher) (entry : JobEntry) (base : Dispatcher)
    (r : Reply A × Dispatcher)
    → ((d : Dispatcher) → Same base d → Same (release_entry entry base) (undo d))
    → Keeps base r
    → Settles entry base (cleaned undo r)
cleaned-Settles undo entry base (returns a, d) u k = record { as_said = k }
cleaned-Settles undo entry base (fails e, d) u k = record { as_said = u d k }
cleaned-Settles undo entry base (blocks, d) u k = record { as_said = tt }

then_call-Settles :
    {A B : Type 0} (entry : JobEntry) (base : Dispatcher) (r : Reply A × Dispatcher)
    (f : A → Call B)
    → Settles entry base r
    → ((a : A) (d : Dispatcher) → Same base d → Settles entry base (f a d))
    → Settles entry base (then_call r f)
then_call-Settles entry base (returns a, d) f k h = h a d k.as_said
then_call-Settles entry base (fails e, d) f k h = record { as_said = k.as_said }
then_call-Settles entry base (blocks, d) f k h = record { as_said = tt }

module _ (m : Meanwhile) (quiet : QuietMeanwhile m) (entry : JobEntry) (base : Dispatcher) where
  note_submitted-Settles :
      (d : Dispatcher) → Same base d → Settles entry base (note_submitted m entry d)
  unfolding note_submitted metric mark_status
  note_submitted-Settles d s =
      let s' = Same-trans s (quiet.after_push d) in
      let marked = mark_status entry.job.id Status.queued (m.after_push d) in
      let before : Same base marked = record {
        cfg = s'.cfg;
        in_flight = s'.in_flight;
        job_names = s'.job_names;
      } in
      let s'' = Same-trans before (quiet.after_mark marked) in
      record {
        as_said = record { cfg = s''.cfg; in_flight = s''.in_flight; job_names = s''.job_names };
      }

  enqueue_persisted-Settles :
      (d : Dispatcher) → Same base d → Settles entry base (enqueue_persisted m entry d)
  unfolding enqueue_persisted
  enqueue_persisted-Settles d s =
      then_call-Settles entry base (on_error (withdraw entry) (enqueue_ready m.wakes entry) d)
        (λ _. note_submitted m entry)
        (cleaned-Settles (withdraw entry) entry base (enqueue_ready m.wakes entry d)
          (λ d' s'.
            release_entry-Same entry base _ (Same-trans s' (delete_stored-Same entry.job.id d')))
          (enqueue_ready-Keeps m.wakes entry base d quiet.wakes s))
        (λ _. note_submitted-Settles)

  persist-Settles :
      (d : Dispatcher)
      → Same base d
      → Settles entry base (on_error (release_entry entry) (persist entry.job) d)
  persist-Settles d s =
      cleaned-Settles (release_entry entry) entry base (persist entry.job d)
        (release_entry-Same entry base) (persist-Keeps entry.job base d s)

  delay_persisted-Settles :
      (d : Dispatcher) → Same base d → Settles entry base (delay_persisted m entry d)
  unfolding delay_persisted push_delayed mark_status
  delay_persisted-Settles d s =
      let pushed : Same base (push_delayed entry d) = record {
        cfg = s.cfg;
        in_flight = s.in_flight;
        job_names = s.job_names;
      } in
      let s' = Same-trans pushed (quiet.after_push (push_delayed entry d)) in
      let marked = mark_status entry.job.id Status.delayed (m.after_push (push_delayed entry d)) in
      let before : Same base marked = record {
        cfg = s'.cfg;
        in_flight = s'.in_flight;
        job_names = s'.job_names;
      } in
      let s'' = Same-trans before (quiet.after_mark marked) in
      record {
        as_said = record { cfg = s''.cfg; in_flight = s''.in_flight; job_names = s''.job_names };
      }

  submit_when-Settles :
      (due : Bool) (d : Dispatcher) → Same base d → Settles entry base (submit_when due m entry d)
  unfolding submit_ready submit_delayed
  submit_when-Settles true d s =
      then_call-Settles entry base (on_error (release_entry entry) (persist entry.job) d)
        (λ _. enqueue_persisted m entry) (persist-Settles d s) (λ _. enqueue_persisted-Settles)
  submit_when-Settles false d s =
      then_call-Settles entry base (on_error (release_entry entry) (persist entry.job) d)
        (λ _. delay_persisted m entry) (persist-Settles d s) (λ _. delay_persisted-Settles)

  is_due-Settles : (d : Dispatcher) → Same base d → Settles entry base (is_due entry.job.run_at d)
  is_due-Settles d s = elim (Bool-cases (entry.job.run_at == 0)) [
    | inl now ↦ rw now (record { as_said = s })
    | inr at ↦ rw at (record {
      as_said = record { cfg = s.cfg; in_flight = s.in_flight; job_names = s.job_names };
    })
  ]

  pub submit_entry-Settles :
      (d : Dispatcher) → Same base d → Settles entry base (submit_entry m entry d)
  unfolding submit_entry
  submit_entry-Settles d s =
      then_call-Settles entry base (is_due entry.job.run_at d) (λ due. submit_when due m entry)
        (is_due-Settles d s) submit_when-Settles
