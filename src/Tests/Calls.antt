-- ===== src/Tests/Calls.antt =====
-- internal/core/dispatcher.go: calls that succeed, at concrete inputs.
use jobx.Prelude.{◌≡◌, refl, false, ◌∷◌, [], none, some}
use jobx.Prelude.Maps.{lookup, contains}
use jobx.Text.{text_discrete}
use jobx.Errors.{ok}
use jobx.Logs.{nop_logger, normalize_logger}
use jobx.Job.{empty_spec, apply_options}
use jobx.Status.{Status}
use jobx.InFlight.{claim}
use jobx.ReadyQueue.{push, push_round}
use jobx.Dispatcher.State.{Meanwhile, alone, Dispatcher, returns}
use jobx.Dispatcher.Steps.{is_cancelled, mark_status, validate_name, task_name_rule, persist}
use jobx.Dispatcher.Submit.{
  submit_with_options, build_entry, apply_conflict, apply_claim, cancel_all, submit_claimed,
  submit_entry, submit_ready, enqueue_persisted, enqueue_ready, note_submitted, enqueued,
}
use jobx.Dispatcher.Submit.Served.{IsServed, submit_with_options-IsServed}
use jobx.Dispatcher.Submit.Accepted.{IsMarked, submit_with_options-status}
use jobx.Options.{default_config, configure, with_workers}
use jobx.Dispatcher.Lifecycle.{handle, new_dispatcher, fresh_dispatcher}
use jobx.Tests.Samples.{mail, wipe, id_b, failing, idle_dispatcher}

-- Without a store; the worker has finished the job before `Submit` goes on.
abbrev storeless : Dispatcher
storeless = record idle_dispatcher { cfg = record idle_dispatcher.cfg { store = none } }

abbrev finished_early : Meanwhile
finished_early = record {
  wakes = [];
  after_push = mark_status id_b Status.succeeded;
  after_mark = λ d. d;
}

abbrev submitted : Dispatcher
submitted = (submit_with_options finished_early mail [] [] storeless).1

submit_returns : submit_with_options finished_early mail [] [] storeless ≡ (returns id_b, submitted)
unfolding submit_with_options build_entry apply_options apply_conflict submit_claimed submit_entry
    submit_ready persist claim apply_claim cancel_all validate_name task_name_rule lookup
    text_discrete enqueue_persisted enqueue_ready note_submitted push push_round enqueued
submit_returns = refl

submit_with_options-status_example :
    (storeless.env.random_hex storeless.random_reads ≡ ok id_b)
    × IsMarked finished_early id_b submitted
submit_with_options-status_example =
    submit_with_options-status finished_early mail [] [] storeless submitted id_b submit_returns

abbrev registered : Dispatcher
registered = (handle wipe (some failing) idle_dispatcher).1

handle_returns : handle wipe (some failing) idle_dispatcher ≡ (returns tt, registered)
unfolding handle validate_name task_name_rule lookup text_discrete
handle_returns = refl

abbrev two_workers : Dispatcher
two_workers =
    fresh_dispatcher idle_dispatcher.env
      (record (default_config (λ n. n)) { workers = 2; logger = nop_logger })

built : new_dispatcher idle_dispatcher.env (λ n. n) (with_workers 2 ∷ []) ≡ ok two_workers
unfolding new_dispatcher configure with_workers fresh_dispatcher normalize_logger default_config
built = refl

abbrev left_alone : Dispatcher
left_alone = (submit_with_options alone mail [] [] storeless).1

alone_returns : submit_with_options alone mail [] [] storeless ≡ (returns id_b, left_alone)
unfolding submit_with_options build_entry apply_options apply_conflict submit_claimed submit_entry
    submit_ready persist claim apply_claim cancel_all validate_name task_name_rule lookup
    text_discrete enqueue_persisted enqueue_ready note_submitted push push_round enqueued
alone_returns = refl

no_options : apply_options [] empty_spec ≡ ok empty_spec
unfolding apply_options
no_options = refl

unmarked : is_cancelled id_b storeless ≡ false
unfolding is_cancelled contains
unmarked = refl

submit_with_options-IsServed_example :
    IsServed mail [] empty_spec storeless left_alone id_b (λ d. d)
submit_with_options-IsServed_example =
    submit_with_options-IsServed mail [] [] empty_spec storeless left_alone id_b (λ d. d) no_options
      refl (λ is. cc) refl unmarked alone_returns
