-- ===== src/ReadyQueue.antt =====
-- internal/core/ready_queue.go: the bounded queue of ready jobs.
-- Each critical section is one step. Where `push` and `pop` wait, a list of `Wake`s says what the
-- other goroutines did to the shared world meanwhile and which case of the `select` fires.
pub mod Bounds
pub mod Order
use jobx.Prelude.{
  ℕ, Bool, true, false, ◌||◌, List, [], ◌∷◌, ◌++◌, Option, none, some, ite, ltb, if◌then◌else◌,
  length,
}
use jobx.Text.{Text, text_discrete}
use jobx.Errors.{Error, err_queue_full, err_shutting_down}
use jobx.Job.{JobEntry}

pub record ReadyQueue : Type 0 where
  pub items : List JobEntry
  pub capacity : ℕ
  pub closed : Bool
  -- A token stands in the channel `notify`, whose capacity is 1.
  pub notify : Bool

unfoldable pub new_ready_queue : ℕ → ReadyQueue
new_ready_queue capacity = record {
  items = [];
  capacity = capacity;
  closed = false;
  notify = false;
}

unfoldable pub signal : ReadyQueue → ReadyQueue
signal q = record q { notify = true }

-- What one round of the loop of `push` comes to.
pub data PushRound : Type 0 where
  added : ReadyQueue → PushRound
  refused : Error → PushRound
  waits : PushRound

unfoldable pub push_round : ReadyQueue → JobEntry → Bool → PushRound
unfolding signal
push_round q entry drop =
    if ltb (length q.items) q.capacity
    then added (signal (record q { items = q.items ++ entry ∷ [] }))
    else if drop
    then refused err_queue_full
    else if q.closed
    then refused err_shutting_down
    else waits

-- What one round of the loop of `pop` comes to.
pub data PopRound : Type 0 where
  popped : JobEntry → ReadyQueue → PopRound
  ended : PopRound
  starved : PopRound

unfoldable pub pop_items : List JobEntry → ReadyQueue → PopRound
unfolding signal
pop_items (entry ∷ rest) q = popped entry (signal (record q { items = rest }))
pop_items [] q = if q.closed then ended else starved

unfoldable pub pop_round : ReadyQueue → PopRound
unfolding pop_items
pop_round q = pop_items q.items q

-- The loop of `remove` over the items: what is left, and whether an entry was removed.
unfoldable pub remove_items : Text → List JobEntry → List JobEntry × Bool
remove_items id [] = ([], false)
remove_items id (entry ∷ items) =
    ite (text_discrete entry.job.id id) (items, true)
      (let (rest, found) = remove_items id items in (entry ∷ rest, found))

unfoldable pub remove : Text → ReadyQueue → ReadyQueue × Bool
remove id q = let (rest, found) = remove_items id q.items in (record q { items = rest }, found)

unfoldable pub close : ReadyQueue → ReadyQueue
unfolding signal
close q = signal (record q { closed = true })

-- While a goroutine waits in a `select`: the others change the world, then `wake` lets the case
-- of a ready channel fire, if there is one, and `done` the case of the cancelled context.
pub data Wake (W : Type 0) : Type 0 where
  wake : (W → W) → Wake W
  done : (W → W) → Error → Wake W

-- A receive from `notify` takes the token; one from the closed `closedCh` takes nothing.
abbrev pub receive : ReadyQueue → ReadyQueue
receive q = record q { notify = false }

abbrev pub is_ready : ReadyQueue → Bool
is_ready q = q.notify || q.closed

pub data PushResult : Type 0 where
  pushed : PushResult
  failed : Error → PushResult
  blocked : PushResult

pub data PopResult : Type 0 where
  got : JobEntry → PopResult
  stopped : PopResult
  idle : PopResult

-- The queue stands in a world `W` that the goroutines share.
module _ {W : Type 0} (get : W → ReadyQueue) (put : ReadyQueue → W → W) where
  abbrev pub after_push : PushRound → W → W × PushResult → W × PushResult
  after_push (added q) w rest = (put q w, pushed)
  after_push (refused e) w rest = (w, failed e)
  after_push waits w rest = rest

  -- The `select` of `push`, and the rounds after it.
  unfoldable pub push_wait : List (Wake W) → W → JobEntry → Bool → W × PushResult
  push_wait [] w entry drop = (w, blocked)
  push_wait (done others e ∷ wakes) w entry drop = (others w, failed e)
  push_wait (wake others ∷ wakes) w entry drop = elim (is_ready (get (others w))) [
    | false ↦ push_wait wakes (others w) entry drop
    | true ↦
        let w' = put (receive (get (others w))) (others w) in
        let rest = push_wait wakes w' entry drop in
        after_push (push_round (get w') entry drop) w' rest
  ]

  unfoldable pub push : List (Wake W) → W → JobEntry → Bool → W × PushResult
  push wakes w entry drop =
      after_push (push_round (get w) entry drop) w (push_wait wakes w entry drop)

  abbrev pub after_pop : PopRound → W → W × PopResult → W × PopResult
  after_pop (popped entry q) w rest = (put q w, got entry)
  after_pop ended w rest = (w, stopped)
  after_pop starved w rest = rest

  -- `pop` has no context to cancel: its `select` waits for the two channels only.
  unfoldable pub pop_wait : List (W → W) → W → W × PopResult
  pop_wait [] w = (w, idle)
  pop_wait (others ∷ wakes) w = elim (is_ready (get (others w))) [
    | false ↦ pop_wait wakes (others w)
    | true ↦
        let w' = put (receive (get (others w))) (others w) in
        let rest = pop_wait wakes w' in after_pop (pop_round (get w')) w' rest
  ]

  unfoldable pub pop : List (W → W) → W → W × PopResult
  pop wakes w = after_pop (pop_round (get w)) w (pop_wait wakes w)
