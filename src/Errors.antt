-- ===== src/Errors.antt =====
-- internal/core/errors.go: the error codes, their kinds, and the predefined error values.
-- An error value is the term that builds it; its message is left out.
use jobx.Text.{Text}

pub data Code : Type 0 where
  invalid_config handler_not_found handler_conflict job_invalid job_not_found queue_full : Code
  shutting_down timeout retry_exhausted execution_failed skipped replaced cron_invalid : Code
  scheduler_stopped store_invalid id_generate_failed job_cancelled : Code

pub data Kind : Type 0 where
  invalid not_found already_exists rate_limited unavailable timed_out internal conflict : Kind
  cancelled : Kind

-- registerCodes: the kind that `NewCode` gives to an error with the code.
unfoldable pub code_kind : Code → Kind
code_kind invalid_config = Kind.invalid
code_kind handler_not_found = Kind.not_found
code_kind handler_conflict = Kind.already_exists
code_kind job_invalid = Kind.invalid
code_kind job_not_found = Kind.not_found
code_kind queue_full = Kind.rate_limited
code_kind shutting_down = Kind.unavailable
code_kind timeout = Kind.timed_out
code_kind retry_exhausted = Kind.internal
code_kind execution_failed = Kind.internal
code_kind skipped = Kind.already_exists
code_kind replaced = Kind.conflict
code_kind cron_invalid = Kind.invalid
code_kind scheduler_stopped = Kind.unavailable
code_kind store_invalid = Kind.unavailable
code_kind id_generate_failed = Kind.unavailable
code_kind job_cancelled = Kind.cancelled

-- `errx.NewCode`, `errx.WrapCode`, and an error of other code: a context's, a store's, a
-- handler's, the value of a panic.
pub data Error : Type 0 where
  new_code : Code → Error
  wrap_code : Error → Code → Error
  foreign : Text → Error

pub data Result {ℓ} (A : Type ℓ) : Type ℓ where
  ok : A → Result A
  err : Error → Result A

infixl 5 ◌>>=◌
abbrev pub ◌>>=◌ {ℓ κ} : {A : Type ℓ} {B : Type κ} → Result A → (A → Result B) → Result B
ok a >>= f = f a
err e >>= f = err e

abbrev pub err_handler_not_found : Error
err_handler_not_found = new_code handler_not_found

abbrev pub err_handler_conflict : Error
err_handler_conflict = new_code handler_conflict

-- `ErrJobInvalid`, and what `errJobInvalid` builds but for the message.
abbrev pub err_job_invalid : Error
err_job_invalid = new_code job_invalid

-- What `errInvalidConfig` builds but for the message.
abbrev pub err_invalid_config : Error
err_invalid_config = new_code invalid_config

abbrev pub err_job_not_found : Error
err_job_not_found = new_code job_not_found

abbrev pub err_queue_full : Error
err_queue_full = new_code queue_full

abbrev pub err_shutting_down : Error
err_shutting_down = new_code shutting_down

abbrev pub err_skipped : Error
err_skipped = new_code skipped

abbrev err_timeout : Error
err_timeout = new_code timeout

abbrev err_retry_exhausted : Error
err_retry_exhausted = new_code retry_exhausted

abbrev err_execution_failed : Error
err_execution_failed = new_code execution_failed

abbrev err_replaced : Error
err_replaced = new_code replaced

abbrev err_cron_invalid : Error
err_cron_invalid = new_code cron_invalid

abbrev err_scheduler_stopped : Error
err_scheduler_stopped = new_code scheduler_stopped

abbrev err_store_invalid : Error
err_store_invalid = new_code store_invalid
