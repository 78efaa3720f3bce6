-- ===== src/Dispatcher/Pool/Bounds.antt =====
-- internal/core/ready_queue.go: the bound of the ready queue, whatever the dispatcher does.
use jobx.Prelude.{
  ℕ, ◌≤◌, ◌≡◌, refl, sym, ap, ◌∙◌, Bool, List, [], ◌∷◌, Option, none, some, arith, length,
  length-append,
}
use jobx.Text.{Text}
use jobx.Clock.{Time}
use jobx.Errors.{Error}
use jobx.Job.{Job, JobEntry, JobSpec}
use jobx.Options.{Config}
use jobx.ReadyQueue.{
  ReadyQueue, new_ready_queue, push_round, added, pop_round, pop_items, popped, remove,
  remove_items,
}
use jobx.ReadyQueue
use jobx.Dispatcher.State.{Dispatcher, Env}
use jobx.Dispatcher.Steps.{mark_status, metric, release_job, delete_stored, push_delayed}
use jobx.Dispatcher.Submit.{build_entry}
use jobx.Dispatcher.Cancel.{cancel_by_id}
use jobx.Dispatcher.Cancel.Effects.{cancel_by_id-ready}
use jobx.Dispatcher.Delay.{take_delayed}
use jobx.Dispatcher.Run.{
  begin_run, conclude, clean_up, schedule_retry, save_stored, retry_entry, clock_now, clock_read,
}
use jobx.Dispatcher.Lifecycle.{fresh_dispatcher}
use jobx.Dispatcher.Pool.{
  Pool, Move, others, builds, queues, delays, drops, takes, cancels, pops, stops, skips, checks,
  begins, misses, abandons, rechecks, concludes, cleans_up, Reach, here, later, start,
}

-- The queue holds at most as many entries as it was made for.
record IsWithin (n : ℕ) (q : ReadyQueue) : Type 0 where
  capacity : q.capacity ≡ n
  bound : length q.items ≤ n

same-IsWithin : (n : ℕ) (q q' : ReadyQueue) → q' ≡ q → IsWithin n q → IsWithin n q'
same-IsWithin n q q' e w = rw e w

added-IsWithin :
    (n : ℕ) (q q' : ReadyQueue) (e : JobEntry) (drop : Bool)
    → push_round q e drop ≡ added q'
    → IsWithin n q
    → IsWithin n q'
unfolding push_round ReadyQueue.signal
added-IsWithin n q q' e drop h w =
    let size = length-append q.items (e ∷ []) in
    record {
      capacity = ground (arith, w.capacity);
      bound = ground (arith, size, w.capacity, w.bound);
    }

popped-IsWithin :
    (n : ℕ) (q q' : ReadyQueue) (e : JobEntry)
    → pop_round q ≡ popped e q'
    → IsWithin n q
    → IsWithin n q'
unfolding pop_round pop_items ReadyQueue.signal
popped-IsWithin n q q' e h w = record {
  capacity = ground (arith, w.capacity);
  bound = ground (arith, w.bound);
}

length-remove_items : (id : Text) (l : List JobEntry) → length (remove_items id l).0 ≤ length l
unfolding remove_items
length-remove_items id [] = omega arith
length-remove_items id (e ∷ l) = ground (arith, length-remove_items id l)

cancelled-IsWithin :
    (n : ℕ) (id : Text) (d : Dispatcher) → IsWithin n d.ready → IsWithin n (cancel_by_id id d).ready
unfolding remove
cancelled-IsWithin n id d w = rw (cancel_by_id-ready id d) (record {
  capacity = w.capacity;
  bound = omega (arith, length-remove_items id d.ready.items, w.bound);
})

clean_up-ready : (job : Job) (d : Dispatcher) → (clean_up job d).ready ≡ d.ready
unfolding clean_up delete_stored release_job metric
clean_up-ready job d = ground arith

save_stored-ready : (job : Job) (d : Dispatcher) → (save_stored job d).ready ≡ d.ready
unfolding save_stored
save_stored-ready job d = ground arith

conclude-ready :
    (result : Option Error) (started : Time) (e : JobEntry) (d : Dispatcher)
    → (conclude result started e d).ready ≡ d.ready
unfolding conclude schedule_retry mark_status metric push_delayed
conclude-ready none started e d = refl
conclude-ready (some reason) started e d =
    ground (arith, save_stored-ready (retry_entry e (clock_now d)).job (clock_read d))

build_entry-ready :
    (name payload : Text) (spec : JobSpec) (d : Dispatcher)
    → (build_entry name payload spec d).1.ready ≡ d.ready
unfolding build_entry
build_entry-ready name payload spec d = ground arith

Move-IsWithin : (n : ℕ) {y z : Pool} → Move y z → IsWithin n y.disp.ready → IsWithin n z.disp.ready
unfolding mark_status metric release_job push_delayed take_delayed begin_run
Move-IsWithin n {y} (others d q) w = record {
  capacity = q.capacity ∙ w.capacity;
  bound = omega (arith, ap length q.items, w.bound);
}
Move-IsWithin n {y} (builds name payload spec) w =
    same-IsWithin n y.disp.ready _ (build_entry-ready name payload spec y.disp) w
Move-IsWithin n {y} (queues ks ls e drop q h p) w = added-IsWithin n y.disp.ready q e drop p w
Move-IsWithin n (delays ks ls e h) w = record { capacity = w.capacity; bound = w.bound }
Move-IsWithin n (drops ks ls e h) w = w
Move-IsWithin n {y} (takes e d h) w =
    same-IsWithin n y.disp.ready d.ready (sym (ap (λ r. r.1.ready) h)) w
Move-IsWithin n {y} (cancels id) w = cancelled-IsWithin n id y.disp w
Move-IsWithin n {y} (pops ws vs e q h p) w = popped-IsWithin n y.disp.ready q e p w
Move-IsWithin n (stops ws vs h p) w = w
Move-IsWithin n (skips ws vs e h c) w = record { capacity = w.capacity; bound = w.bound }
Move-IsWithin n (checks ws vs e h c) w = record { capacity = w.capacity; bound = w.bound }
Move-IsWithin n (begins ws vs e h) w = record { capacity = w.capacity; bound = w.bound }
Move-IsWithin n (misses ws vs e h) w = record { capacity = w.capacity; bound = w.bound }
Move-IsWithin n (abandons ws vs e h c) w = record { capacity = w.capacity; bound = w.bound }
Move-IsWithin n (rechecks ws vs e h c) w = w
Move-IsWithin n {y} (concludes ws vs e result started h) w =
    same-IsWithin n y.disp.ready _ (conclude-ready result started e y.disp) w
Move-IsWithin n {y} (cleans_up ws vs e h) w =
    same-IsWithin n y.disp.ready _ (clean_up-ready e.job y.disp) w

Reach-IsWithin :
    (env : Env) (cfg : Config) {y : Pool}
    → Reach (start env cfg) y
    → IsWithin cfg.queue_size y.disp.ready
unfolding fresh_dispatcher new_ready_queue
Reach-IsWithin env cfg here = record { capacity = refl; bound = omega arith }
Reach-IsWithin env cfg (later r m) = Move-IsWithin cfg.queue_size m (Reach-IsWithin env cfg r)

-- However the calls and the goroutines interleave, the ready queue never holds more entries than the
-- configured queue size.
pub Reach-queue_size :
    (env : Env) (cfg : Config) (y : Pool)
    → Reach (start env cfg) y
    → length y.disp.ready.items ≤ cfg.queue_size
Reach-queue_size env cfg y r = (Reach-IsWithin env cfg r).bound
