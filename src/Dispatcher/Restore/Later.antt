-- ===== src/Dispatcher/Restore/Later.antt =====
-- internal/core/dispatcher.go: `Restore` of jobs that are not due yet.
use mathlib.Core.List.{Perm, perm_middle}
use mathlib.Core.List.Perm
use jobx.Prelude.{
  ℕ, ◌+◌, ◌<◌, ◌≡◌, refl, ap, subst, ◌∙◌, Bool, true, false, List, [], ◌∷◌, ◌++◌, Option, none,
  some, arith, length, All, if◌then◌else◌,
}
use jobx.Prelude.Maps.{lookup}
use jobx.Text.{Text, text_discrete}
use jobx.Clock.{is_after}
use jobx.Errors.{Error, ok}
use jobx.Job.{Job, JobEntry}
use jobx.Options.{Store}
use jobx.Heap.Laws.{IsOrdered, push_correct}
use jobx.Dispatcher.State.{Dispatcher, Handler, Meanwhile, alone, Call, Reply, returns}
use jobx.Dispatcher.Steps.{run_key, push_delayed, mark_status, delete_stored}
use jobx.Dispatcher.Restore.{
  restore_delayed, restore_entry, restore_found, restore_job, count, counted, restore_jobs,
  with_meanwhile, restore_listed, restore_from, restore,
}

abbrev is_found : Option Handler → Bool
is_found none = false
is_found (some h) = true

-- The jobs whose name has a handler, as entries.
abbrev pub entries_of : List (Text × Handler) → List Job → List JobEntry
entries_of handlers [] = []
entries_of handlers (job ∷ jobs) =
    if is_found (lookup text_discrete job.name handlers)
    then record { job = job } ∷ entries_of handlers jobs
    else entries_of handlers jobs

-- The heap has gained the entries; the handlers and the configuration are the same.
pub record Gains (entries : List JobEntry) (d d' : Dispatcher) : Type 0 where
  pub handlers : d'.handlers ≡ d.handlers
  pub cfg : d'.cfg ≡ d.cfg
  pub ordered : IsOrdered run_key d'.delay_heap
  pub heap : Perm d'.delay_heap (entries ++ d.delay_heap)

-- The time of the job is after every reading of the clock.
abbrev pub IsLater : Dispatcher → Job → Type 0
IsLater d job = (n : ℕ) → d.cfg.now n < job.run_at

-- A round of the loop that ends, and the entry that it adds.
record Round (o : Option Handler) (job : Job) (d : Dispatcher) (r : Reply Bool × Dispatcher)
    : Type 0 where
  pub reply : r.0 ≡ returns (is_found o)
  pub gains : Gains (if is_found o then record { job = job } ∷ [] else []) d r.1

restore_found-Round :
    (o : Option Handler) (m : Meanwhile) (job : Job) (d : Dispatcher)
    → IsLater d job
    → IsOrdered run_key d.delay_heap
    → Round o job d (restore_found o m job d)
unfolding restore_found restore_entry restore_delayed push_delayed mark_status delete_stored
restore_found-Round none m job d later h = record {
  reply = refl;
  gains =
      let heap : (delete_stored job.id d).delay_heap ≡ d.delay_heap = ground arith in
      record {
        handlers = ground arith;
        cfg = ground arith;
        ordered = rw heap h;
        heap = rw heap (Perm.refl d.delay_heap);
      };
}
restore_found-Round (some f) m job d later h =
    let now = later d.clock_reads in
    let future : is_after job.run_at (d.cfg.now d.clock_reads) ≡ true = ground arith in
    let (ordered, same) = push_correct run_key d.delay_heap (record { job = job }) h in
    rw future (record {
      reply = refl;
      gains = record { handlers = refl; cfg = refl; ordered = ordered; heap = same };
    })

-- What the loop over the jobs comes to, when `n` are restored already.
pub record Restores (jobs : List Job) (n : ℕ) (d : Dispatcher)
    (r : Reply (ℕ × Option Error) × Dispatcher) : Type 0 where
  pub reply : r.0 ≡ returns (length (entries_of d.handlers jobs) + n, none)
  pub gains : Gains (entries_of d.handlers jobs) d r.1

joined :
    (o : Option Handler) (job : Job) (more : List JobEntry) (d d' d'' : Dispatcher)
    → Gains (if is_found o then record { job = job } ∷ [] else []) d d'
    → Gains more d' d''
    → Gains (if is_found o then record { job = job } ∷ more else more) d d''
joined none job more d d' d'' a b = record {
  handlers = b.handlers ∙ a.handlers;
  cfg = b.cfg ∙ a.cfg;
  ordered = b.ordered;
  heap = Perm.trans b.heap (Perm.append_left more a.heap);
}
joined (some h) job more d d' d'' a b = record {
  handlers = b.handlers ∙ a.handlers;
  cfg = b.cfg ∙ a.cfg;
  ordered = b.ordered;
  heap =
      Perm.trans b.heap (Perm.trans (Perm.append_left more a.heap) (perm_middle more d.delay_heap));
}

counts :
    (o : Option Handler) (e : JobEntry) (more : List JobEntry) (n : ℕ)
    → length more + count (is_found o) n ≡ length (if is_found o then e ∷ more else more) + n
counts none e more n = refl
counts (some h) e more n = omega arith

counted-Restores :
    (job : Job) (jobs : List Job) (n : ℕ) (d : Dispatcher) (r : Reply Bool × Dispatcher)
    (rest : ℕ → Call (ℕ × Option Error))
    → Round (lookup text_discrete job.name d.handlers) job d r
    → ((k : ℕ) → Restores jobs k r.1 (rest k r.1))
    → Restores (job ∷ jobs) n d (counted r n rest)
unfolding counted
counted-Restores job jobs n d (reply, d₁) rest round others =
    let o = lookup text_discrete job.name d.handlers in
    let e : JobEntry = record { job = job } in
    let k = others (count (is_found o) n) in
    let same : entries_of d₁.handlers jobs ≡ entries_of d.handlers jobs =
      ap (λ hs. entries_of hs jobs) round.gains.handlers in
    rw round.reply (record {
      reply =
          k.reply
          ∙ ap (λ es. returns (length es + count (is_found o) n, none)) same
          ∙ ap (λ c. returns (c, none)) (counts o e (entries_of d.handlers jobs) n);
      gains =
          joined o job (entries_of d.handlers jobs) d d₁ _ round.gains
            (subst (λ es. Gains es d₁ (rest (count (is_found o) n) d₁).1) same k.gains);
    })

IsLater-keeps :
    (d d' : Dispatcher) (jobs : List Job)
    → d'.cfg ≡ d.cfg
    → All (IsLater d) jobs
    → All (IsLater d') jobs
IsLater-keeps d d' [] e h = tt
IsLater-keeps d d' (job ∷ jobs) e (now, h) = (λ n. rw e (now n), IsLater-keeps d d' jobs e h)

restore_jobs-Restores :
    (ms : List Meanwhile) (jobs : List Job) (n : ℕ) (d : Dispatcher)
    → All (IsLater d) jobs
    → IsOrdered run_key d.delay_heap
    → Restores jobs n d (restore_jobs (with_meanwhile ms jobs) n d)
unfolding restore_jobs restore_job
restore_jobs-Restores ms [] n d later h = record {
  reply = ap (λ k. returns (k, none)) (omega arith);
  gains = record { handlers = refl; cfg = refl; ordered = h; heap = Perm.refl d.delay_heap };
}
restore_jobs-Restores [] (job ∷ jobs) n d (now, later) h =
    let d₁ = (restore_job alone job d).1 in
    let round = restore_found-Round (lookup text_discrete job.name d.handlers) alone job d now h in
    counted-Restores job jobs n d _ _ round (λ k.
      restore_jobs-Restores [] jobs k d₁ (IsLater-keeps d d₁ jobs round.gains.cfg later)
        round.gains.ordered)
restore_jobs-Restores (m ∷ ms) (job ∷ jobs) n d (now, later) h =
    let d₁ = (restore_job m job d).1 in
    let round = restore_found-Round (lookup text_discrete job.name d.handlers) m job d now h in
    counted-Restores job jobs n d _ _ round (λ k.
      restore_jobs-Restores ms jobs k d₁ (IsLater-keeps d d₁ jobs round.gains.cfg later)
        round.gains.ordered)

-- If the store lists jobs that are all later than every reading of the clock, and no other goroutine
-- acts on the dispatcher meanwhile, `Restore` ends without an error: it returns the number of the jobs
-- whose name has a handler, and these jobs join the delay heap, which stays in heap order.
pub restore-Restores :
    (ms : List Meanwhile) (jobs : List Job) (d : Dispatcher) (store : Store)
    → d.cfg.store ≡ some store
    → store.list d.store_calls ≡ ok jobs
    → All (IsLater d) jobs
    → IsOrdered run_key d.delay_heap
    → Restores jobs 0 d (restore ms d)
unfolding restore restore_from restore_listed
restore-Restores ms jobs d store stored listed later h =
    simp (stored, listed) (restore_jobs-Restores ms jobs 0 d later h)
