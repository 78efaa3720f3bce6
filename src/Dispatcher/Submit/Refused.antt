-- ===== src/Dispatcher/Submit/Refused.antt =====
-- internal/core/dispatcher.go: `SubmitWithOptions` while a job of the name is in flight, under the skip
-- policy.
use jobx.Prelude.{◌≡◌, ◌≢◌, refl, sym, ap, ◌∙◌, List, [], arith}
use jobx.Text.{Text}
use jobx.Errors.{Error, Result, ok, err}
use jobx.Job.{JobEntry, JobSpec, SubmitOption, apply_options, empty_spec}
use jobx.Options.{conflict_skip}
use jobx.InFlight.{InFlight, Claim, ids_of, claim, claimed, taken}
use jobx.InFlight.Claims.{skip_claims_free}
use jobx.Dispatcher.State.{
  Dispatcher, Meanwhile, Reply, returns, fails, blocks, Call, then_call, lift,
}
use jobx.Dispatcher.Submit.{build_entry, apply_claim, apply_conflict, submit_with_options}

-- Where nothing is returned but what the predicate allows, and nothing blocks.
abbrev pub Yields : {A : Type 0} → (A → Dispatcher → Type 0) → Reply A × Dispatcher → Type 0
Yields P (returns a, d) = P a d
Yields P (fails e, d) = Unit
Yields P (blocks, d) = ⊥

then_call-Yields :
    {A B : Type 0} (P : A → Dispatcher → Type 0) (Q : B → Dispatcher → Type 0)
    (r : Reply A × Dispatcher) (f : A → Call B)
    → Yields P r
    → ((a : A) (d : Dispatcher) → P a d → Yields Q (f a d))
    → Yields Q (then_call r f)
then_call-Yields P Q (returns a, d) f k h = h a d k
then_call-Yields P Q (fails e, d) f k h = tt
then_call-Yields P Q (blocks, d) f k h = absurd k

pub Yields-fails :
    {A : Type 0} (r : Reply A × Dispatcher)
    → Yields (λ a d. ⊥) r
    → (e : Error) × (d : Dispatcher) × (r ≡ (fails e, d))
Yields-fails (returns a, d) k = absurd k
Yields-fails (fails e, d) k = (e, d, refl)
Yields-fails (blocks, d) k = absurd k

-- What stands in the way of a submission of the name.
abbrev pub InFlightAs : Text → Dispatcher → Type 0
InFlightAs name d = (d.cfg.conflict ≡ conflict_skip) × (ids_of name d.in_flight ≢ [])

abbrev IsNamed : Text → JobEntry → Dispatcher → Type 0
IsNamed name entry d = (entry.job.name ≡ name) × InFlightAs name d

build_entry-Yields :
    (name payload : Text) (spec : JobSpec) (d : Dispatcher)
    → InFlightAs name d
    → Yields (IsNamed name) (build_entry name payload spec d)
unfolding build_entry
build_entry-Yields name payload spec d (skip, busy) = ground arith

lift-Yields :
    {A : Type 0} (name : Text) (r : Result A) (d : Dispatcher)
    → InFlightAs name d
    → Yields (λ a. InFlightAs name) (lift r d)
lift-Yields name (ok a) d busy = busy
lift-Yields name (err e) d busy = tt

apply_claim-Yields :
    (c : Claim) (entry : JobEntry) (d : Dispatcher)
    → ((m : InFlight) (olds : List Text) → c ≢ claimed m olds)
    → Yields (λ a d'. ⊥) (apply_claim c entry d)
unfolding apply_claim
apply_claim-Yields (claimed m olds) entry d none_free = absurd (none_free m olds refl)
apply_claim-Yields taken entry d none_free = tt

apply_conflict-Yields :
    (name : Text) (entry : JobEntry) (d : Dispatcher)
    → IsNamed name entry d
    → Yields (λ a d'. ⊥) (apply_conflict entry d)
unfolding apply_conflict
apply_conflict-Yields name entry d (same, (skip, busy)) = apply_claim-Yields _ entry d (λ m olds e.
    busy (
      ap (λ n. ids_of n d.in_flight) (sym same)
      ∙ (skip_claims_free entry.job.name entry.job.id d.in_flight m olds
          (ap (λ p. claim p entry.job.name entry.job.id d.in_flight) (sym skip) ∙ e)).0))

pub submit_with_options-Yields :
    (m : Meanwhile) (name payload : Text) (opts : List SubmitOption) (d : Dispatcher)
    → InFlightAs name d
    → Yields (λ a d'. ⊥) (submit_with_options m name payload opts d)
unfolding submit_with_options
submit_with_options-Yields m name payload opts d busy =
    then_call-Yields (λ s. InFlightAs name) (λ a d'. ⊥) (lift (apply_options opts empty_spec) d) _
      (lift-Yields name (apply_options opts empty_spec) d busy)
      (λ spec d₁ still_busy.
        then_call-Yields (IsNamed name) (λ a d'. ⊥) (build_entry name payload spec d₁) _
          (build_entry-Yields name payload spec d₁ still_busy)
          (λ entry d₂ named.
            then_call-Yields (λ a d'. ⊥) (λ a d'. ⊥) (apply_conflict entry d₂) _
              (apply_conflict-Yields name entry d₂ named) (λ a d₃ k. absurd k)))
