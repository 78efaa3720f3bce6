-- ===== src/Dispatcher/Run/Retry.antt =====
-- internal/core/worker.go: retries.
use jobx.Prelude.{
  ℕ, ◌+◌, ◌*◌, ◌%◌, ◌^◌, ◌<◌, ◌≡◌, refl, Bool, true, false, List, [], ◌∷◌, some, arith, ite,
}
use jobx.Prelude.Maps.{lookup, contains, contains-discard}
use jobx.Text.{Text, text_discrete}
use jobx.Clock.{Time, add_duration, shift_left}
use jobx.Errors.{Error}
use jobx.Job.{JobEntry}
use jobx.Options.{Store, StoreCall, saves, deletes}
use jobx.Heap
use jobx.InFlight.{ids_of, release_in_flight}
use jobx.InFlight.Claims.{tracks, ids_of-release_in_flight}
use jobx.Dispatcher.State.{Dispatcher, Handler}
use jobx.Dispatcher.Steps.{
  run_key, mark_status, metric, release_job, delete_stored, is_cancelled, push_delayed,
}
use jobx.Dispatcher.Run.{
  clock_now, hand_over, end_handler, save_stored, retry_entry, schedule_retry, clean_up,
  outcome_error, may_retry, conclude, execute, dispatch, run_entry,
}
use jobx.Dispatcher.Run.Ends.{started, run_entry_live}

add_fitting : (now w : ℕ) → w < 2 ^ 63 → add_duration now (w % 2 ^ 64) ≡ now + w
unfolding add_duration
add_fitting now w h = ground arith

-- While `RetryDelay · 2^Attempt` fits a duration, the retry runs that long after the failure, as
-- the next attempt of the same job.
pub retry_entry-backoff :
    (entry : JobEntry) (now : Time)
    → entry.job.retry_delay * 2 ^ entry.job.attempt < 2 ^ 63
    → ((retry_entry entry now).job.run_at ≡ now + entry.job.retry_delay * 2 ^ entry.job.attempt)
      × ((retry_entry entry now).job.attempt ≡ entry.job.attempt + 1)
      × ((retry_entry entry now).job.id ≡ entry.job.id)
unfolding retry_entry shift_left
retry_entry-backoff entry now h = (add_fitting now _ h, omega arith, refl)

-- Whether a store that does what it is told holds a job, by the calls that it has had.
pub stored : Text → List StoreCall → Bool
stored id [] = false
stored id (saves job ∷ calls) = ite (text_discrete job.id id) true (stored id calls)
stored id (deletes j ∷ calls) = ite (text_discrete j id) false (stored id calls)

-- An execution that fails while retries are left. `mid` is the dispatcher when the handler is over.
module _ (others : Dispatcher → Dispatcher) (entry : JobEntry) (d : Dispatcher) (h : Handler)
    (e : Error) (live : is_cancelled entry.job.id d ≡ false)
    (found : lookup text_discrete entry.job.name d.handlers ≡ some h)
    (kept : is_cancelled entry.job.id (others (hand_over entry.job (started entry d))) ≡ false)
    (failing : outcome_error (h entry.job) ≡ some e) (again : may_retry entry.job ≡ true) where
  abbrev pub mid : Dispatcher
  mid = end_handler (h entry.job) entry.job (others (hand_over entry.job (started entry d)))

  retries : run_entry others entry d ≡ clean_up entry.job (schedule_retry e entry mid)
  unfolding dispatch execute conclude
  retries =
      rw (run_entry_live others entry d live, found)
        (rw (kept, execute) (rw (failing, conclude) (rw again refl)))

  -- If a job that was not cancelled ends in an error while retries are left, `runEntry` puts its next
  -- attempt on the delay heap, for the time that the back-off gives, and wakes the delay loop.
  run_entry-retries :
      ((run_entry others entry d).delay_heap
        ≡ Heap.push run_key mid.delay_heap (retry_entry entry (clock_now mid)))
      × ((run_entry others entry d).signal ≡ true)
  unfolding clean_up schedule_retry delete_stored release_job metric mark_status push_delayed
      save_stored
  run_entry-retries = rw retries (ground arith)

  -- If a job that was not cancelled ends in an error while retries are left, and there is a store,
  -- then `runEntry` saves the next attempt and afterwards deletes the job of the same id: a store
  -- that does what it is told does not hold the job that waits for its retry.
  pub run_entry-retry_unsaved :
      (store : Store)
      → mid.cfg.store ≡ some store
      → ((run_entry others entry d).store_calls
          ≡ deletes entry.job.id ∷ saves (retry_entry entry (clock_now mid)).job ∷ mid.store_calls)
        × (stored entry.job.id (run_entry others entry d).store_calls ≡ false)
  unfolding clean_up schedule_retry delete_stored release_job metric mark_status push_delayed
      save_stored stored
  run_entry-retry_unsaved store there = rw retries (ground arith)

  same_in_flight :
      (clean_up entry.job (schedule_retry e entry mid)).in_flight
      ≡ release_in_flight mid.cfg.conflict entry.job.name entry.job.id mid.in_flight
  unfolding clean_up schedule_retry delete_stored release_job metric mark_status push_delayed
      save_stored
  same_in_flight = ground arith

  -- If a job that was not cancelled ends in an error while retries are left, then under a policy that
  -- keeps the in-flight sets its id has left the set of its name when `runEntry` is over, though
  -- the job waits for its retry.
  pub run_entry-retry_released :
      tracks mid.cfg.conflict ≡ true
      → contains text_discrete entry.job.id
          (ids_of entry.job.name (run_entry others entry d).in_flight)
        ≡ false
  run_entry-retry_released t =
      let policy = mid.cfg.conflict in
      let ids = ids_of entry.job.name mid.in_flight in
      rw (retries, same_in_flight)
        (ground (
          arith,
          ids_of-release_in_flight policy entry.job.name entry.job.name entry.job.id mid.in_flight
              t,
          contains-discard text_discrete entry.job.id entry.job.id ids,
        ))
