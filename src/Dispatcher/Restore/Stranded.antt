-- ===== src/Dispatcher/Restore/Stranded.antt =====
-- internal/core/dispatcher.go: `Restore` when a job that is due finds no place in the queue.
use jobx.Prelude.{
  ◌≡◌, ◌≢◌, refl, sym, Bool-cases, inl, inr, ap, ◌∙◌, ◌≤◌, ltb, false, List, [], ◌∷◌, some, length,
  arith,
}
use jobx.Prelude.Maps.{lookup, add, contains}
use jobx.Text.{Text, text_discrete}
use jobx.Clock.{is_after}
use jobx.Errors.{Error, ok}
use jobx.Job.{Job, SubmitOption}
use jobx.Options.{Store, ConflictPolicy, conflict_skip}
use jobx.ReadyQueue.{push, push_round, push_wait, Wake, done}
use jobx.InFlight.{InFlight, ids_of, add_in_flight, restore_in_flight}
use jobx.Dispatcher.State.{Dispatcher, Handler, Meanwhile, returns, fails}
use jobx.Dispatcher.Steps.{read_clock}
use jobx.Dispatcher.Submit.{submit_with_options}
use jobx.Dispatcher.Submit.Refused.{InFlightAs, Yields-fails, submit_with_options-Yields}
use jobx.InFlight.Claims.{ids_of-add_in_flight}
use jobx.Dispatcher.Restore.{
  register_restored, restore_ready, restore_entry, restore_found, restore_job, counted,
  restore_jobs, restore_listed, restore_from, restore,
}

-- The state in which the job waits for a place.
abbrev pub at_push : Job → Dispatcher → Dispatcher
at_push job d = (read_clock (register_restored job d)).1

restore_found-fails :
    (m : Meanwhile) (job : Job) (h : Handler) (d : Dispatcher) (others : Dispatcher → Dispatcher)
    (e : Error) (wakes : List (Wake Dispatcher))
    → m.wakes ≡ done others e ∷ wakes
    → job.run_at ≤ d.cfg.now d.clock_reads
    → d.ready.closed ≡ false
    → d.ready.capacity ≤ length d.ready.items
    → restore_found (some h) m job d ≡ (fails e, others (at_push job d))
unfolding restore_found restore_entry restore_ready push push_round push_wait
restore_found-fails m job h d others e wakes waits due open_ full =
    let now : is_after job.run_at (d.cfg.now d.clock_reads) ≡ false = ground arith in
    let no_room : ltb (length d.ready.items) d.ready.capacity ≡ false = ground arith in
    rw (now, waits, no_room, open_) refl

add-filled : (x : Text) (l : List Text) → add text_discrete x l ≢ []
unfolding add contains
add-filled x [] e = ground arith
add-filled x (y ∷ l) e = elim (Bool-cases (contains text_discrete x (y ∷ l))) [
  | inl there ↦ absurd (ground (arith, e, there))
  | inr new ↦ absurd (ground (arith, e, new))
]

restore_in_flight-filled :
    (c : ConflictPolicy) (name id : Text) (m : InFlight)
    → c ≡ conflict_skip
    → ids_of name (restore_in_flight c name id m) ≢ []
unfolding restore_in_flight
restore_in_flight-filled c name id m skip e =
    let same : restore_in_flight c name id m ≡ add_in_flight name id m = rw skip refl in
    let filled = ap (ids_of name) (sym same) ∙ e in
    add-filled id (ids_of name m) (ground (arith, ids_of-add_in_flight name name id m, filled))

-- `Restore` whose first job is due and finds the queue full, under the skip policy, when the context
-- of the call ends while it waits for a place and the others leave the in-flight sets and the
-- configuration alone meanwhile: it returns the error of the context and no restored job, and leaves
-- the state in which it registered the job as in flight and waited, as the others made it, so that
-- every submission of its name, with whatever options, fails.
pub restore-strands :
    (m m' : Meanwhile) (ms : List Meanwhile) (job : Job) (jobs : List Job) (payload : Text)
    (opts : List SubmitOption) (d : Dispatcher) (store : Store) (h : Handler)
    (others : Dispatcher → Dispatcher) (e : Error) (wakes : List (Wake Dispatcher))
    → d.cfg.store ≡ some store
    → store.list d.store_calls ≡ ok (job ∷ jobs)
    → d.cfg.conflict ≡ conflict_skip
    → lookup text_discrete job.name d.handlers ≡ some h
    → job.run_at ≤ d.cfg.now d.clock_reads
    → d.ready.closed ≡ false
    → d.ready.capacity ≤ length d.ready.items
    → m.wakes ≡ done others e ∷ wakes
    → (others (at_push job d)).cfg ≡ d.cfg
    → (others (at_push job d)).in_flight ≡ (at_push job d).in_flight
    → (restore (m ∷ ms) d ≡ (returns (0, some e), others (at_push job d)))
      × ((e' : Error) × (d' : Dispatcher) × (submit_with_options m' job.name payload opts
              (restore (m ∷ ms) d).1
            ≡ (fails e', d')))
unfolding restore restore_from restore_listed restore_jobs restore_job counted
restore-strands m m' ms job jobs payload opts d store h others e wakes stored listed skip found due
      open_ full waits same_cfg same_sets =
    let failed_round = restore_found-fails m job h d others e wakes waits due open_ full in
    let busy : InFlightAs job.name (others (at_push job d)) = (
      ap (λ c. c.conflict) same_cfg ∙ skip,
      λ gone.
          restore_in_flight-filled d.cfg.conflict job.name job.id d.in_flight skip
            (ap (ids_of job.name) (sym same_sets) ∙ gone),
    ) in
    simp (stored, listed, found, failed_round)
      (refl, Yields-fails _ (submit_with_options-Yields m' job.name payload opts _ busy))
