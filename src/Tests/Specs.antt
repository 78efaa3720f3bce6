-- ===== src/Tests/Specs.antt =====
-- internal/core/job.go at concrete inputs.
use jobx.Prelude.{◌≡◌, refl, List, [], ◌∷◌}
use jobx.Errors.{ok}
use jobx.Job.{
  JobSpec, SubmitOption, empty_spec, with_timeout, with_run_at, with_retry, apply_options,
}
use jobx.Job.Valid.{KeepsValid, options_keep_valid}

abbrev three_retries : JobSpec
three_retries = record { run_at = 0; max_retries = 3; retry_delay = 5; timeout = 7 }

abbrev opts : List SubmitOption
opts = with_timeout 7 ∷ with_retry 3 5 ∷ []

applied : apply_options opts empty_spec ≡ ok three_retries
unfolding apply_options with_timeout with_retry
applied = refl

abbrev kept : KeepsValid (with_timeout 7) × KeepsValid (with_run_at 2) × KeepsValid (with_retry 3 5)
kept = options_keep_valid 7 2 3 5
