-- ===== src/Dispatcher/Submit/Rollback.antt =====
-- internal/core/dispatcher.go: a submission that fails leaves no trace in the in-flight sets and in
-- the table of names.
use jobx.Prelude.{
  ◌≡◌, ◌≢◌, refl, sym, ap, ◌∙◌, Bool, true, false, List, [], ◌∷◌, none, if◌then◌else◌, arith, ◌⊎◌,
  inl, inr,
}
use jobx.Prelude.Maps.{lookup, discard, insert, lookup-insert, lookup-delete}
use jobx.Text.{Text, text_discrete}
use jobx.Errors.{Error, Result, ok, err}
use jobx.Job.{JobEntry, SubmitOption, JobSpec, apply_options, empty_spec}
use jobx.Options.{conflict_skip}
use jobx.Logs.{LogEntry}
use jobx.InFlight.{InFlight, ids_of, claim, claimed, taken, Claim}
use jobx.InFlight.Claims.{tracks, Claims, ids_of-release_in_flight, claim-Claims, skip_claims_free}
use jobx.Metrics.{MetricEvent}
use jobx.Dispatcher.State.{
  Dispatcher, Meanwhile, Reply, returns, fails, blocks, Call, then_call, ◌>>=◌, lift,
}
use jobx.Dispatcher.Steps.{metric, log, release_job}
use jobx.Dispatcher.Submit.{
  submit_claimed, build_entry, apply_conflict, apply_claim, submit_with_options, release_entry,
  cancel_all, note_replaced,
}
use jobx.Dispatcher.Submit.Frame.{Same, Same-refl, QuietMeanwhile}
use jobx.Dispatcher.Submit.Settles.{submit_entry-Settles}

-- The two agree on what is in flight and on the names of the jobs, entry by entry.
pub record SameBooks (d d' : Dispatcher) : Type 0 where
  pub ids : (n : Text) → ids_of n d'.in_flight ≡ ids_of n d.in_flight
  pub names :
      (id : Text) → lookup text_discrete id d'.job_names ≡ lookup text_discrete id d.job_names

-- A dispatcher in which a fresh job has been claimed and named.
record IsClaimed (entry : JobEntry) (d₀ base : Dispatcher) : Type 0 where
  tracked : tracks base.cfg.conflict ≡ true
  none_before : ids_of entry.job.name d₀.in_flight ≡ []
  claims : Claims base.cfg.conflict entry.job.name entry.job.id d₀.in_flight base.in_flight []
  unknown : lookup text_discrete entry.job.id d₀.job_names ≡ none
  names : base.job_names ≡ insert text_discrete entry.job.id entry.job.name d₀.job_names

release_claimed :
    (entry : JobEntry) (d₀ base d : Dispatcher)
    → IsClaimed entry d₀ base
    → Same (release_entry entry base) d
    → SameBooks d₀ d
unfolding release_job discard
release_claimed entry d₀ base d c s = record {
  ids = λ n.
      rw
        (
          s.in_flight,
          ids_of-release_in_flight base.cfg.conflict n entry.job.name entry.job.id base.in_flight
              c.tracked,
        )
        (elim (text_discrete entry.job.name n) [
          | yes p ↦ ground (arith, c.claims.alone, ap (λ k. ids_of k d₀.in_flight) p)
          | no q ↦ ground (arith, c.claims.others n q)
        ]);
  names = λ id.
      rw (s.job_names, lookup-delete, c.names, lookup-insert)
        (elim (text_discrete entry.job.id id) [
          | yes p ↦ ground (arith, ap (λ k. lookup text_discrete k d₀.job_names) p, c.unknown)
          | no q ↦ ground arith
        ]);
}

if_either : {A : Type 0} (b : Bool) {x y z : A} → (if b then x else y) ≡ z → (x ≡ z) ⊎ (y ≡ z)
if_either true h = inl h
if_either false h = inr h

-- A call that failed failed in its first part, or in the rest.
then_call-fails :
    {A B : Type 0} (r : Reply A × Dispatcher) (f : A → Call B) (e : Error) (d' : Dispatcher)
    → then_call r f ≡ (fails e, d')
    → (r ≡ (fails e, d'))
      ⊎ ((a : A) × (d : Dispatcher) × (r ≡ (returns a, d)) × (f a d ≡ (fails e, d')))
then_call-fails (returns a, d) f e d' h = inr (a, d, refl, h)
then_call-fails (fails x, d) f e d' h = inl (ground arith)
then_call-fails (blocks, d) f e d' h = absurd (ground arith)

build_entry-Same :
    (name payload : Text) (spec : JobSpec) (d : Dispatcher)
    → Same d (build_entry name payload spec d).1
unfolding build_entry
build_entry-Same name payload spec d = record {
  cfg = ground arith;
  in_flight = ground arith;
  job_names = ground arith;
}

pub build_entry-returns :
    (name payload : Text) (spec : JobSpec) (d : Dispatcher) (entry : JobEntry)
    → (build_entry name payload spec d).0 ≡ returns entry
    → d.env.random_hex d.random_reads ≡ ok entry.job.id
unfolding build_entry
build_entry-returns name payload spec d entry h = ground arith

Same-SameBooks : (d d' : Dispatcher) → Same d d' → SameBooks d d'
Same-SameBooks d d' s = record {
  ids = λ n. ap (ids_of n) s.in_flight;
  names = λ id. ap (lookup text_discrete id) s.job_names;
}

module _ (m : Meanwhile) (quiet : QuietMeanwhile m) (entry : JobEntry) (d₀ : Dispatcher)
    (skip : d₀.cfg.conflict ≡ conflict_skip)
    (unknown : lookup text_discrete entry.job.id d₀.job_names ≡ none) where
  -- The dispatcher that `submit_claimed` starts from.
  abbrev base_of : InFlight → Dispatcher
  base_of sets = record d₀ {
    in_flight = sets;
    job_names = insert text_discrete entry.job.id entry.job.name d₀.job_names;
  }

  base-IsClaimed :
      (sets : InFlight) (olds : List Text)
      → claim conflict_skip entry.job.name entry.job.id d₀.in_flight ≡ claimed sets olds
      → IsClaimed entry d₀ (base_of sets)
  base-IsClaimed sets olds c =
      let none_before = skip_claims_free entry.job.name entry.job.id d₀.in_flight sets olds c in
      let k =
        claim-Claims conflict_skip entry.job.name entry.job.id d₀.in_flight sets olds refl c in
      record {
        tracked = rw skip refl;
        none_before = none_before.0;
        claims = record { alone = k.alone; others = k.others; replaced = sym none_before.0 };
        unknown = unknown;
        names = refl;
      }

  released_as : {d d' : Dispatcher} → d ≡ d' → Same d d'
  released_as {d} p = rw (← p) (Same-refl d)

  submit_claimed-rollback :
      (sets : InFlight) (e : Error) (d' : Dispatcher)
      → IsClaimed entry d₀ (base_of sets)
      → submit_claimed m entry (record d₀ { in_flight = sets }) ≡ (fails e, d')
      → SameBooks d₀ d'
  unfolding submit_claimed
  submit_claimed-rollback sets e d' c h = elim (if_either d₀.running h) [
    | inl entered ↦
        let s = submit_entry-Settles m quiet entry (base_of sets) (base_of sets) (Same-refl _) in
        release_claimed entry d₀ (base_of sets) d' c (rw entered at s).as_said
    | inr down ↦ release_claimed entry d₀ (base_of sets) d' c (released_as (ap (λ r. r.1) down))
  ]

  apply_claim-rollback :
      (c : Claim) (e : Error) (d' : Dispatcher)
      → claim d₀.cfg.conflict entry.job.name entry.job.id d₀.in_flight ≡ c
      → then_call (apply_claim c entry d₀) (λ _. submit_claimed m entry) ≡ (fails e, d')
      → SameBooks d₀ d'
  unfolding apply_claim metric cancel_all note_replaced
  apply_claim-rollback taken e d' p h =
      let same : log (LogEntry.skipped entry.job) (metric (MetricEvent.skipped entry.job.name) d₀)
          ≡ d' =
        ap (λ r. r.1) h in
      rw (← same) (record { ids = λ n. refl; names = λ id. refl })
  apply_claim-rollback (claimed sets []) e d' p h =
      submit_claimed-rollback sets e d' (base-IsClaimed sets [] (rw skip at p)) h
  apply_claim-rollback (claimed sets (x ∷ xs)) e d' p h = absurd (
      no_olds
        (skip_claims_free entry.job.name entry.job.id d₀.in_flight sets (x ∷ xs) (rw skip at p)).1)
    where
      no_olds : (x ∷ xs) ≢ []
      no_olds q = cc

-- A call that returns a value or an error without a change.
lift-unchanged :
    {A : Type 0} (r : Result A) (d d' : Dispatcher) (x : Reply A) → lift r d ≡ (x, d') → d' ≡ d
lift-unchanged (ok a) d d' x h = sym (ap (λ r. r.1) h)
lift-unchanged (err e) d d' x h = sym (ap (λ r. r.1) h)

SameBooks-trans : {c d e : Dispatcher} → SameBooks c d → SameBooks d e → SameBooks c e
SameBooks-trans s t = record { ids = λ n. t.ids n ∙ s.ids n; names = λ id. t.names id ∙ s.names id }

module _ (m : Meanwhile) (name payload : Text) (d : Dispatcher) (e : Error) (d' : Dispatcher)
    (quiet : QuietMeanwhile m) (skip : d.cfg.conflict ≡ conflict_skip)
    (fresh : (id : Text)
      → d.env.random_hex d.random_reads ≡ ok id
      → lookup text_discrete id d.job_names ≡ none) where
  submit_built-rollback :
      (spec : JobSpec)
      → then_call
          (build_entry name payload spec d)
          (λ entry. apply_conflict entry >>= λ _. submit_claimed m entry)
        ≡ (fails e, d')
      → SameBooks d d'
  unfolding apply_conflict
  submit_built-rollback spec h =
      let s = build_entry-Same name payload spec d in
      elim (then_call-fails (build_entry name payload spec d) _ e d' h) [
        | inl a ↦ Same-SameBooks d d' (rw (ap (λ r. r.1) a) at s)
        | inr (entry, d₁, a, h₁) ↦
            let s₁ : Same d d₁ = rw (ap (λ r. r.1) a) at s in
            let id = build_entry-returns name payload spec d entry (ap (λ r. r.0) a) in
            let unknown =
              ap (lookup text_discrete entry.job.id) s₁.job_names ∙ fresh entry.job.id id in
            SameBooks-trans (Same-SameBooks d d₁ s₁) (
              apply_claim-rollback m quiet entry d₁ (ap (λ c. c.conflict) s₁.cfg ∙ skip) unknown _ e
                d' refl h₁)
      ]

-- Under the skip policy, and while the other goroutines leave the in-flight sets and the table of
-- names alone, a submission that returns an error leaves them as they were, entry by entry, if the
-- id that the random source gives names no job yet.
pub submit_with_options-rollback :
    (m : Meanwhile) (name payload : Text) (opts : List SubmitOption) (d d' : Dispatcher) (e : Error)
    → QuietMeanwhile m
    → d.cfg.conflict ≡ conflict_skip
    → ((id : Text)
        → d.env.random_hex d.random_reads ≡ ok id
        → lookup text_discrete id d.job_names ≡ none)
    → submit_with_options m name payload opts d ≡ (fails e, d')
    → SameBooks d d'
unfolding submit_with_options
submit_with_options-rollback m name payload opts d d' e quiet skip fresh h =
    elim (then_call-fails (lift (apply_options opts empty_spec) d) _ e d' h) [
      | inl a ↦ rw (lift-unchanged _ d d' _ a) (Same-SameBooks d d (Same-refl d))
      | inr (spec, d₁, a, h₁) ↦
          submit_built-rollback m name payload d e d' quiet skip fresh spec
            (rw (lift-unchanged _ d d₁ _ a) at h₁)
    ]
