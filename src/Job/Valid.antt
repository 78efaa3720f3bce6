-- ===== src/Job/Valid.antt =====
-- internal/core/job.go: what the submission options let through.
use jobx.Prelude.{
  ◌^◌, ◌≤◌, ◌<◌, ◌≡◌, refl, Bool, true, false, ◌||◌, List, [], ◌∷◌, arith, All, ltb, if◌then◌else◌,
}
use jobx.Clock.{Time, Word, Duration, is_negative, is_zero}
use jobx.Errors.{Result, ok, err, err_job_invalid, ◌>>=◌}
use jobx.Job.{JobSpec, SubmitOption, with_timeout, with_run_at, with_retry, apply_options}

-- At most 100 retries, and no negative duration.
pub record IsValid (s : JobSpec) : Type 0 where
  pub retries : s.max_retries ≤ 100
  pub delay : s.retry_delay < 2 ^ 63
  pub timeout : s.timeout < 2 ^ 63

-- An option that turns a valid specification into a valid one, where it does not refuse.
abbrev pub KeepsValid : SubmitOption → Type 0
KeepsValid opt = (s s' : JobSpec) → IsValid s → opt s ≡ ok s' → IsValid s'

valid_from :
    (b : Bool) (x : Result JobSpec) (s' : JobSpec)
    → (if b then err err_job_invalid else x) ≡ ok s'
    → (b ≡ false) × (x ≡ ok s')
valid_from true x s' h = absurd (ground arith)
valid_from false x s' h = (refl, h)

ok_same : (s s' : JobSpec) → ok s ≡ ok s' → s ≡ s'
ok_same s s' h = ground arith

-- `WithTimeout`, `WithRunAt` and `WithRetry` refuse or keep a specification valid, for any arguments:
-- at most 100 retries, and no negative delay or timeout.
pub options_keep_valid :
    (timeout : Duration) (at : Time) (max_retries : Word) (delay : Duration)
    → KeepsValid (with_timeout timeout)
      × KeepsValid (with_run_at at)
      × KeepsValid (with_retry max_retries delay)
unfolding with_timeout with_run_at with_retry
options_keep_valid timeout at max_retries delay = (
  λ s s' v h.
      let (good, e) = valid_from (is_negative timeout) _ s' h in
      rw (← ok_same _ s' e)
        (record { retries = v.retries; delay = v.delay; timeout = ground arith }),
  λ s s' v h.
      let (good, e) = valid_from (is_zero at) _ s' h in
      rw (← ok_same _ s' e) (record { retries = v.retries; delay = v.delay; timeout = v.timeout }),
  λ s s' v h.
      let (few, h₁) = valid_from (is_negative max_retries || ltb 100 max_retries) _ s' h in
      let (good, e) = valid_from (is_negative delay) _ s' h₁ in
      rw (← ok_same _ s' e)
        (record { retries = ground arith; delay = ground arith; timeout = v.timeout }),
)

bind_ok :
    (r : Result JobSpec) (f : SubmitOption) (s' : JobSpec)
    → r >>= f ≡ ok s'
    → (s : JobSpec) × (r ≡ ok s) × (f s ≡ ok s')
bind_ok (ok s) f s' h = (s, refl, h)
bind_ok (err e) f s' h = absurd (ground arith)

-- The specification that the option loop of a submission accepts is valid, if each of the options keeps
-- a specification valid and the one that the loop starts from is valid.
pub apply_options-IsValid :
    (opts : List SubmitOption) (s s' : JobSpec)
    → All KeepsValid opts
    → IsValid s
    → apply_options opts s ≡ ok s'
    → IsValid s'
unfolding apply_options
apply_options-IsValid [] s s' k v h = rw (← ok_same s s' h) v
apply_options-IsValid (opt ∷ opts) s s' k v h =
    let (s₁, e, rest) = bind_ok (opt s) (apply_options opts) s' h in
    apply_options-IsValid opts s₁ s' k.1 (k.0 s s₁ v e) rest
