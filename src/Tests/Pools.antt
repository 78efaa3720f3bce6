-- ===== src/Tests/Pools.antt =====
-- internal/core/dispatcher.go and internal/core/worker.go: runs of steps of the pool at concrete inputs.
use jobx.Prelude.{
  ℕ, zero, suc, ◌≤◌, ◌≡◌, ◌≢◌, refl, sym, ap, ◌∙◌, true, [], ◌∷◌, ◌++◌, ◌+◌, none, arith, length,
}
use jobx.Prelude.Maps.{lookup, contains}
use jobx.Text.{Text, text_discrete}
use jobx.Errors.{ok}
use jobx.Job.{JobEntry, empty_spec}
use jobx.Options.{Config, conflict_allow}
use jobx.Status
use jobx.ReadyQueue.{push_round, pop_round, pop_items, signal, new_ready_queue}
use jobx.Heap.Laws.{IsOrdered}
use jobx.Dispatcher.State.{Env, Dispatcher, alone}
use jobx.Dispatcher.Steps.{
  run_key, validate_name, task_name_rule, is_cancelled, metric, mark_status, release_job, put_ready,
}
use jobx.Dispatcher.Submit.{build_entry, submit_with_options}
use jobx.Dispatcher.Cancel.{cancel_by_id}
use jobx.Dispatcher.Cancel.Effects.{IsCancelled}
use jobx.Dispatcher.Delay.{on_timer, delay_round}
use jobx.Dispatcher.Run.{begin_run, worker_round}
use jobx.Dispatcher.Lifecycle.{fresh_dispatcher}
use jobx.Dispatcher.Pool.{
  Pool, free, holds, runs, begun, finished, made, others, builds, queues, pops, checks, begins,
  skips, note_taken, Reach, here, later, start,
}
use jobx.Dispatcher.Pool.Keeps.{IsDistinct, copies}
use jobx.Dispatcher.Pool.Once.{Reach-copies, Reach-runs_apart, Reach-cancel_by_id}
use jobx.Dispatcher.Pool.Marks.{running_count, Reach-running_count}
use jobx.Dispatcher.Pool.Gauge.{busy, Reach-busy}
use jobx.Dispatcher.Pool.Bounds.{Reach-queue_size}
use jobx.Dispatcher.Pool.Paths.{pool, MeanwhileSteps, CallSteps, fields-Quiet, one_move}
use jobx.Dispatcher.Pool.Submits.{submit_with_options-CallSteps}
use jobx.Dispatcher.Pool.Works.{left, worker_round-Reach}
use jobx.Dispatcher.Pool.Delays.{delay_round-CallSteps}
use jobx.Tests.Samples.{mail, id_a, entry_a, config, failing, idle_dispatcher, busy_dispatcher}

-- The n-th id is n times the letter a.
abbrev letters : ℕ → Text
letters zero = []
letters (suc n) = 97 ∷ letters n

length-letters : (n : ℕ) → length (letters n) ≡ n
length-letters zero = refl
length-letters (suc n) = omega (arith, length-letters n)

abbrev counting_env : Env
counting_env = record { validate_field = λ rule. rule; random_hex = λ n. ok (letters n) }

counting_env-IsDistinct : IsDistinct counting_env
counting_env-IsDistinct m n id p q =
    let same : letters m ≡ letters n = ground (arith, p ∙ sym q) in
    sym (length-letters m) ∙ ap length same ∙ length-letters n

abbrev two_workers : Config
two_workers = record config { workers = 2; conflict = conflict_allow; store = none }

-- A handler is registered.
abbrev handled : Dispatcher
handled = record (fresh_dispatcher counting_env two_workers) { handlers = (mail, failing) ∷ [] }

abbrev p₁ : Pool
p₁ = pool handled [] (free ∷ free ∷ [])

r₁ : Reach (start counting_env two_workers) p₁
unfolding fresh_dispatcher
r₁ = one_move (others handled (fields-Quiet _ handled refl (omega arith) refl refl refl refl refl))

abbrev p₂ : Pool
p₂ = record p₁ {
  disp = (build_entry mail [] empty_spec p₁.disp).1;
  held = made (build_entry mail [] empty_spec p₁.disp).0 ++ p₁.held;
}

abbrev p₃ : Pool
p₃ = record p₂ {
  disp = (build_entry mail [] empty_spec p₂.disp).1;
  held = made (build_entry mail [] empty_spec p₂.disp).0 ++ p₂.held;
}

abbrev entry_of : ℕ → JobEntry
entry_of n = record {
  job = record {
    id = letters n;
    name = mail;
    payload = [];
    created_at = 10;
    run_at = 0;
    max_retries = 0;
    retry_delay = 0;
    timeout = 0;
    attempt = 0;
  };
}

-- Both entries are in the queue.
abbrev p₄ : Pool
p₄ = record p₃ {
  disp = put_ready (signal (record p₃.disp.ready { items = entry_of 0 ∷ [] })) p₃.disp;
  held = entry_of 1 ∷ [];
}

abbrev p₅ : Pool
p₅ = record p₄ {
  disp = put_ready (signal (record p₄.disp.ready { items = entry_of 0 ∷ entry_of 1 ∷ [] })) p₄.disp;
  held = [];
}

-- Both workers have begun.
abbrev p₆ : Pool
p₆ = record p₅ {
  disp = put_ready (signal (record p₅.disp.ready { items = entry_of 1 ∷ [] })) p₅.disp;
  workers = holds (entry_of 0) ∷ free ∷ [];
}

abbrev p₇ : Pool
p₇ = record p₆ {
  disp = begin_run (entry_of 0).job (note_taken (entry_of 0) p₆.disp);
  workers = runs (entry_of 0) ∷ free ∷ [];
}

abbrev p₈ : Pool
p₈ = record p₇ {
  disp = put_ready (signal (record p₇.disp.ready { items = [] })) p₇.disp;
  workers = runs (entry_of 0) ∷ holds (entry_of 1) ∷ [];
}

abbrev p₉ : Pool
p₉ = record p₈ {
  disp = begin_run (entry_of 1).job (note_taken (entry_of 1) p₈.disp);
  workers = runs (entry_of 0) ∷ runs (entry_of 1) ∷ [];
}

r₅ : Reach (start counting_env two_workers) p₅
unfolding build_entry validate_name task_name_rule lookup text_discrete push_round signal
    fresh_dispatcher new_ready_queue
r₅ =
    later
      (later (later (later r₁ (builds mail [] empty_spec)) (builds mail [] empty_spec))
        (queues (entry_of 1 ∷ []) [] (entry_of 0) true _ refl refl))
      (queues [] [] (entry_of 1) true _ refl refl)

r₉ : Reach (start counting_env two_workers) p₉
unfolding pop_round pop_items signal is_cancelled contains begin_run metric mark_status
    fresh_dispatcher build_entry validate_name task_name_rule lookup text_discrete new_ready_queue
r₉ =
    later
      (later
        (later
          (later
            (later (later r₅ (pops [] (free ∷ []) (entry_of 0) _ refl refl))
              (checks [] (free ∷ []) (entry_of 0) refl refl))
            (begins [] (free ∷ []) (entry_of 0) refl))
          (pops (runs (entry_of 0) ∷ []) [] (entry_of 1) _ refl refl))
        (checks (runs (entry_of 0) ∷ []) [] (entry_of 1) refl refl))
      (begins (runs (entry_of 0) ∷ []) [] (entry_of 1) refl)

Reach-copies_example : IsOrdered run_key p₉.disp.delay_heap × ((id : Text) → copies id p₉ ≤ 1)
Reach-copies_example = Reach-copies counting_env two_workers p₉ counting_env-IsDistinct r₉

Reach-runs_apart_example : letters 0 ≢ letters 1
Reach-runs_apart_example =
    Reach-runs_apart counting_env two_workers p₉ counting_env-IsDistinct r₉ [] [] [] (entry_of 0)
      (entry_of 1) refl

Reach-cancel_by_id_example : IsCancelled (letters 1) (cancel_by_id (letters 1) p₅.disp)
Reach-cancel_by_id_example =
    Reach-cancel_by_id counting_env two_workers p₅ counting_env-IsDistinct r₅ (letters 1)

Reach-busy_example : begun mail p₉.disp.events ≡ finished mail p₉.disp.events + busy mail p₉
Reach-busy_example = Reach-busy mail counting_env two_workers p₉ r₉

Reach-queue_size_example : length p₅.disp.ready.items ≤ 2
Reach-queue_size_example = Reach-queue_size counting_env two_workers p₅ r₅

-- A job that is cancelled while it waits in the queue, and that a worker pops and skips.
abbrev marked : Dispatcher
marked = record busy_dispatcher { cancelled = id_a ∷ [] }

abbrev q₁ : Pool
q₁ = pool marked [] (free ∷ [])

abbrev q₂ : Pool
q₂ = pool (put_ready (signal (record marked.ready { items = [] })) marked) [] (holds entry_a ∷ [])

abbrev q₃ : Pool
q₃ =
    pool (release_job mail id_a (mark_status id_a Status.cancelled (note_taken entry_a q₂.disp))) []
      (free ∷ [])

skipped : Reach q₁ q₃
unfolding pop_round pop_items signal is_cancelled contains text_discrete
skipped = later (one_move (pops [] [] entry_a _ refl refl)) (skips [] [] entry_a refl refl)

marked_a : is_cancelled id_a marked ≡ true
unfolding is_cancelled contains text_discrete
marked_a = refl

Reach-running_count_example :
    (is_cancelled id_a q₃.disp ≡ true) × (running_count id_a q₃ ≤ running_count id_a q₁)
Reach-running_count_example = Reach-running_count id_a skipped marked_a

alone-MeanwhileSteps : MeanwhileSteps alone
alone-MeanwhileSteps = record {
  wakes = tt;
  after_push = λ d es ws. here;
  after_mark = λ d es ws. here;
}

submit_with_options-CallSteps_example :
    CallSteps [] (free ∷ []) idle_dispatcher (submit_with_options alone mail [] [] idle_dispatcher)
submit_with_options-CallSteps_example =
    submit_with_options-CallSteps alone mail [] [] idle_dispatcher [] (free ∷ [])
      alone-MeanwhileSteps

worker_round-Reach_example : Reach (pool busy_dispatcher [] (free ∷ [])) (
    pool
      (worker_round [] (λ d. d) busy_dispatcher).1
      []
      (left [] [] [] (worker_round [] (λ d. d) busy_dispatcher).0 ∷ []))
worker_round-Reach_example =
    worker_round-Reach [] (λ d. d) busy_dispatcher [] [] [] tt (λ d es ws. here)

delay_round-CallSteps_example :
    CallSteps [] (free ∷ []) busy_dispatcher (delay_round (on_timer 8 (alone ∷ [])) busy_dispatcher)
delay_round-CallSteps_example =
    delay_round-CallSteps (on_timer 8 (alone ∷ [])) busy_dispatcher [] (free ∷ [])
      (alone-MeanwhileSteps, tt)
