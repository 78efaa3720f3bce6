-- ===== src/Job.antt =====
-- internal/core/job.go: the job, its specification at submission and the submission options.
pub mod Valid
use jobx.Prelude.{ℕ, ◌||◌, List, [], ◌∷◌, ltb, if◌then◌else◌}
use jobx.Text.{Text}
use jobx.Clock.{Time, Word, Duration, is_negative, is_zero}
use jobx.Errors.{Result, ok, err, err_job_invalid, ◌>>=◌}

pub record Job : Type 0 where
  pub id : Text
  pub name : Text
  pub payload : Text
  pub created_at : Time
  pub run_at : Time
  pub max_retries : Word
  pub retry_delay : Duration
  pub timeout : Duration
  pub attempt : ℕ

pub record JobEntry : Type 0 where
  pub job : Job

pub record JobSpec : Type 0 where
  pub run_at : Time
  pub max_retries : Word
  pub retry_delay : Duration
  pub timeout : Duration

-- `jobSpec{}`.
abbrev pub empty_spec : JobSpec
empty_spec = record { run_at = 0; max_retries = 0; retry_delay = 0; timeout = 0 }

-- An option reads and updates the specification, or refuses.
abbrev pub SubmitOption : Type 0
SubmitOption = JobSpec → Result JobSpec

unfoldable pub with_timeout : Duration → SubmitOption
with_timeout timeout s =
    if is_negative timeout then err err_job_invalid else ok (record s { timeout = timeout })

unfoldable pub with_run_at : Time → SubmitOption
with_run_at at s = if is_zero at then err err_job_invalid else ok (record s { run_at = at })

unfoldable pub with_retry : Word → Duration → SubmitOption
with_retry max_retries delay s =
    if is_negative max_retries || ltb 100 max_retries
    then err err_job_invalid
    else if is_negative delay
    then err err_job_invalid
    else ok (record s { max_retries = max_retries; retry_delay = delay })

-- The option loop of `SubmitWithOptions`.
unfoldable pub apply_options : List SubmitOption → JobSpec → Result JobSpec
apply_options [] s = ok s
apply_options (opt ∷ opts) s = opt s >>= apply_options opts
