-- ===== src/Dispatcher/Submit/Queues.antt =====
-- internal/core/dispatcher.go: a submission that returns puts its entry at the end of the ready queue.
use jobx.Prelude.{
  ◌≡◌, ◌≢◌, refl, sym, ap, ◌∙◌, Bool, true, false, List, [], ◌∷◌, ◌++◌, arith, if◌then◌else◌,
}
use jobx.Prelude.Maps.{insert}
use jobx.Text.{Text, text_discrete}
use jobx.Errors.{Error, err_shutting_down}
use jobx.Job.{Job, JobEntry}
use jobx.Options.{
  QueueFullPolicy, queue_full_block, queue_full_drop, ConflictPolicy, conflict_skip,
  conflict_replace, conflict_allow,
}
use jobx.ReadyQueue.{
  ReadyQueue, PushRound, added, refused, waits, push_round, push, push_wait, after_push, PushResult,
  pushed, failed, blocked, pop, pop_round, pop_items, after_pop, idle,
}
use jobx.ReadyQueue
use jobx.InFlight.{InFlight, claim_skip, ids_of, Claim, claimed, taken, claim}
use jobx.Dispatcher.State.{
  Dispatcher, alone, then_call, Reply, returns, fails, blocks, cleaned, on_error,
}
use jobx.Dispatcher.Steps.{persist, metric, mark_status, get_ready, put_ready}
use jobx.Dispatcher.Submit.{
  apply_claim, apply_conflict, cancel_all, note_replaced, enqueued, enqueue_ready, withdraw,
  release_entry, note_submitted, enqueue_persisted, submit_ready, is_due, submit_when, submit_entry,
  submit_claimed,
}
use jobx.Dispatcher.Submit.Accepted.{then_call-returns}

-- What a job needs to be run: the two agree on the handlers and on the marks.
pub record Alike (d d' : Dispatcher) : Type 0 where
  pub handlers : d'.handlers ≡ d.handlers
  pub cancelled : d'.cancelled ≡ d.cancelled

Alike-trans : {d d' d'' : Dispatcher} → Alike d d' → Alike d' d'' → Alike d d''
Alike-trans a b = record {
  handlers = b.handlers ∙ a.handlers;
  cancelled = b.cancelled ∙ a.cancelled;
}

-- And the queue is the same.
pub record Still (d d' : Dispatcher) : Type 0 where
  pub alike : Alike d d'
  pub ready : d'.ready ≡ d.ready

pub Still-trans : {d d' d'' : Dispatcher} → Still d d' → Still d' d'' → Still d d''
Still-trans a b = record { alike = Alike-trans a.alike b.alike; ready = b.ready ∙ a.ready }

-- And the entry stands at the end of the queue.
pub record Queued (e : JobEntry) (d d' : Dispatcher) : Type 0 where
  pub alike : Alike d d'
  pub items : d'.ready.items ≡ d.ready.items ++ (e ∷ [])

pub Still-Queued :
    {e : JobEntry} {d d' d'' : Dispatcher} → Still d d' → Queued e d' d'' → Queued e d d''
Still-Queued {e} a b = record {
  alike = Alike-trans a.alike b.alike;
  items = b.items ∙ ap (λ q. q.items ++ (e ∷ [])) a.ready;
}

reply-dispatcher :
    {A : Type 0} (r : Reply A × Dispatcher) (x : Reply A) (d : Dispatcher) → r ≡ (x, d) → r.1 ≡ d
reply-dispatcher r x d h = ap (λ p. p.1) h

cleaned-returns :
    {A : Type 0} (undo : Dispatcher → Dispatcher) (r : Reply A × Dispatcher) (a : A)
    (d : Dispatcher)
    → cleaned undo r ≡ (returns a, d)
    → r ≡ (returns a, d)
cleaned-returns undo (returns x, d') a d h = h
cleaned-returns undo (fails x, d') a d h = absurd (ground arith)
cleaned-returns undo (blocks, d') a d h = absurd (ground arith)

persist-Still : (job : Job) (d d' : Dispatcher) → (persist job d).1 ≡ d' → Still d d'
unfolding persist
persist-Still job d d' h = rw (← h) (record {
  alike = record { handlers = ground arith; cancelled = ground arith };
  ready = ground arith;
})

round-pushed :
    (r : PushRound) (e : JobEntry) (drop : Bool) (d d' : Dispatcher)
    → push_round d.ready e drop ≡ r
    → after_push get_ready put_ready r d (d, blocked) ≡ (d', pushed)
    → Queued e d d'
unfolding push_round ReadyQueue.signal
round-pushed (added q) e drop d d' h p =
    let same : put_ready q d ≡ d' = ap (λ x. x.0) p in
    let items : q.items ≡ d.ready.items ++ (e ∷ []) = ground arith in
    rw (← same) (record { alike = record { handlers = refl; cancelled = refl }; items = items })
round-pushed (refused x) e drop d d' h p = absurd (ground arith)
round-pushed waits e drop d d' h p = absurd (ground arith)

enqueued-pushed :
    (policy : QueueFullPolicy) (name : Text) (r : Dispatcher × PushResult) (d' : Dispatcher)
    → enqueued policy name r ≡ (returns tt, d')
    → r ≡ (d', pushed)
unfolding enqueued
enqueued-pushed policy name (d, pushed) d' h = ap (λ x. (x.1, pushed)) h
enqueued-pushed policy name (d, blocked) d' h = absurd (ground arith)
enqueued-pushed queue_full_drop name (d, failed x) d' h = absurd (ground arith)
enqueued-pushed queue_full_block name (d, failed x) d' h = absurd (ground arith)

enqueue_ready-Queued :
    (e : JobEntry) (d d' : Dispatcher) → enqueue_ready [] e d ≡ (returns tt, d') → Queued e d d'
unfolding enqueue_ready push push_wait
enqueue_ready-Queued e d d' h = round-pushed _ e _ d d' refl (enqueued-pushed _ _ _ d' h)

note_submitted-Still :
    (e : JobEntry) (d d' : Dispatcher) (id : Text)
    → note_submitted alone e d ≡ (returns id, d')
    → Still d d' × (id ≡ e.job.id)
unfolding note_submitted metric mark_status
note_submitted-Still e d d' id h = (
  rw (← ap (λ r. r.1) h)
      (record { alike = record { handlers = refl; cancelled = refl }; ready = refl }),
  ground arith,
)

submit_ready-Queued :
    (e : JobEntry) (d d' : Dispatcher) (id : Text)
    → submit_ready alone e d ≡ (returns id, d')
    → Queued e d d' × (id ≡ e.job.id)
unfolding submit_ready enqueue_persisted
submit_ready-Queued e d d' id h =
    let (_, d₁, stored, h₁) =
      then_call-returns (on_error (release_entry e) (persist e.job) d)
        (λ _. enqueue_persisted alone e) id d' h in
    let saved = cleaned-returns (release_entry e) (persist e.job d) tt d₁ stored in
    let (_, d₂, placed, h₂) =
      then_call-returns (on_error (withdraw e) (enqueue_ready [] e) d₁)
        (λ _. note_submitted alone e) id d' h₁ in
    let q =
      enqueue_ready-Queued e d₁ d₂
        (cleaned-returns (withdraw e) (enqueue_ready [] e d₁) tt d₂ placed) in
    let (n, same) = note_submitted-Still e d₂ d' id h₂ in
    let s = persist-Still e.job d d₁ (reply-dispatcher (persist e.job d) (returns tt) d₁ saved) in
    (
      Still-Queued s (record {
        alike = Alike-trans q.alike n.alike;
        items = ap (λ r. r.items) n.ready ∙ q.items;
      }),
      same,
    )

unset_due :
    (e : JobEntry) (d : Dispatcher) → e.job.run_at ≡ 0 → is_due e.job.run_at d ≡ (returns true, d)
unset_due e d unset = rw unset refl

-- A guard that fails did not fail.
if-returns :
    {A : Type 0} (b : Bool) (r : Reply A × Dispatcher) (x : Error) (d₁ : Dispatcher) (a : A)
    (d' : Dispatcher)
    → (if b then r else (fails x, d₁)) ≡ (returns a, d')
    → r ≡ (returns a, d')
if-returns true r x d₁ a d' h = h
if-returns false r x d₁ a d' h = absurd (ground arith)

pub submit_claimed-Queued :
    (e : JobEntry) (d d' : Dispatcher) (id : Text)
    → e.job.run_at ≡ 0
    → submit_claimed alone e d ≡ (returns id, d')
    → Queued e d d' × (id ≡ e.job.id)
unfolding submit_claimed submit_entry
submit_claimed-Queued e d d' id unset h =
    let d₁ = record d { job_names = insert text_discrete e.job.id e.job.name d.job_names } in
    let due = unset_due e d₁ unset in
    let h₁ = if-returns d.running (submit_entry alone e d₁) err_shutting_down _ id d' h in
    let h₂ : submit_ready alone e d₁ ≡ (returns id, d') =
      sym (ap (λ r. then_call r (λ b. submit_when b alone e)) due) ∙ h₁ in
    let (q, same) = submit_ready-Queued e d₁ d' id h₂ in
    (
      record {
        alike = record { handlers = q.alike.handlers; cancelled = q.alike.cancelled };
        items = q.items;
      },
      same,
    )

-- Under skip and allow a claim replaces nothing.
IsGentle : Claim → Type 0
IsGentle taken = Unit
IsGentle (claimed m olds) = olds ≡ []

claim_skip-IsGentle :
    (set : List Text) (name id : Text) (m : InFlight) → IsGentle (claim_skip set name id m)
unfolding claim_skip IsGentle
claim_skip-IsGentle [] name id m = refl
claim_skip-IsGentle (x ∷ set) name id m = tt

claim-IsGentle :
    (p : ConflictPolicy) (name id : Text) (m : InFlight)
    → p ≢ conflict_replace
    → IsGentle (claim p name id m)
unfolding claim IsGentle
claim-IsGentle conflict_skip name id m keep = claim_skip-IsGentle (ids_of name m) name id m
claim-IsGentle conflict_replace name id m keep = absurd (keep refl)
claim-IsGentle conflict_allow name id m keep = refl

apply_claim-Still :
    (c : Claim) (e : JobEntry) (d d' : Dispatcher)
    → IsGentle c
    → apply_claim c e d ≡ (returns tt, d')
    → Still d d'
unfolding apply_claim IsGentle cancel_all note_replaced
apply_claim-Still taken e d d' gentle h = absurd (ground arith)
apply_claim-Still (claimed m []) e d d' gentle h =
    rw (← ap (λ r. r.1) h)
      (record { alike = record { handlers = refl; cancelled = refl }; ready = refl })
apply_claim-Still (claimed m (x ∷ olds)) e d d' gentle h = absurd (ground arith)

pub apply_conflict-Still :
    (e : JobEntry) (d d' : Dispatcher)
    → d.cfg.conflict ≢ conflict_replace
    → apply_conflict e d ≡ (returns tt, d')
    → Still d d'
unfolding apply_conflict
apply_conflict-Still e d d' keep h =
    apply_claim-Still _ e d d' (claim-IsGentle d.cfg.conflict e.job.name e.job.id d.in_flight keep)
      h
