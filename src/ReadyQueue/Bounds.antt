-- ===== src/ReadyQueue/Bounds.antt =====
-- internal/core/ready_queue.go: the queue never holds more than its capacity.
use jobx.Prelude.{
  ◌≤◌, ◌≡◌, Bool, true, List, [], ◌∷◌, arith, length, length-append, All, inl, inr, Bool-cases, ltb,
  if◌then◌else◌,
}
use jobx.Text.{Text}
use jobx.Errors.{err_queue_full}
use jobx.Job.{JobEntry}
use jobx.ReadyQueue.{
  ReadyQueue, signal, PushRound, added, refused, waits, push_round, popped, ended, starved,
  PopRound, pop_items, pop_round, remove_items, remove, Wake, wake, done, receive, is_ready,
  push_wait, push, pop_wait, pop, pushed, failed, after_push, after_pop, PushResult, PopResult,
}

abbrev pub IsBounded : ReadyQueue → Type 0
IsBounded q = length q.items ≤ q.capacity

abbrev RoundIsBounded : PushRound → Type 0
RoundIsBounded (added q) = IsBounded q
RoundIsBounded (refused e) = Unit
RoundIsBounded waits = Unit

push_round-IsBounded :
    (q : ReadyQueue) (entry : JobEntry) (drop : Bool) → RoundIsBounded (push_round q entry drop)
unfolding push_round
push_round-IsBounded q entry drop = ground (arith, length-append q.items (entry ∷ []))

abbrev PopIsBounded : PopRound → Type 0
PopIsBounded (popped e q) = IsBounded q
PopIsBounded ended = Unit
PopIsBounded starved = Unit

pop_items-IsBounded :
    (l : List JobEntry) (q : ReadyQueue) → length l ≤ q.capacity → PopIsBounded (pop_items l q)
unfolding pop_items signal
pop_items-IsBounded [] q h = ground arith
pop_items-IsBounded (e ∷ l) q h = omega arith

length-remove_items : (id : Text) (l : List JobEntry) → length (remove_items id l).0 ≤ length l
unfolding remove_items
length-remove_items id [] = omega arith
length-remove_items id (e ∷ l) = ground (arith, length-remove_items id l)

pop_round-IsBounded : (q : ReadyQueue) → IsBounded q → PopIsBounded (pop_round q)
unfolding pop_round
pop_round-IsBounded q h = pop_items-IsBounded q.items q h

pub remove-IsBounded : (id : Text) (q : ReadyQueue) → IsBounded q → IsBounded (remove id q).0
unfolding remove
remove-IsBounded id q h = omega (arith, length-remove_items id q.items)

module _ {W : Type 0} (get : W → ReadyQueue) (put : ReadyQueue → W → W)
    (get-put : (q : ReadyQueue) (w : W) → get (put q w) ≡ q) where
  -- What the other goroutines do meanwhile keeps the bound.
  abbrev pub KeepsBound : Wake W → Type 0
  KeepsBound (wake others) = (w : W) → IsBounded (get w) → IsBounded (get (others w))
  KeepsBound (done others e) = (w : W) → IsBounded (get w) → IsBounded (get (others w))

  after_push-IsBounded :
      (r : PushRound) (w : W) (rest : W × PushResult)
      → RoundIsBounded r
      → IsBounded (get w)
      → IsBounded (get rest.0)
      → IsBounded (get (after_push get put r w rest).0)
  after_push-IsBounded (added q) w rest b h hr = rw (get-put q w) b
  after_push-IsBounded (refused e) w rest b h hr = h
  after_push-IsBounded waits w rest b h hr = hr

  push_wait-IsBounded :
      (wakes : List (Wake W)) (w : W) (entry : JobEntry) (drop : Bool)
      → All KeepsBound wakes
      → IsBounded (get w)
      → IsBounded (get (push_wait get put wakes w entry drop).0)
  unfolding push_wait
  push_wait-IsBounded [] w entry drop k h = h
  push_wait-IsBounded (done others e ∷ wakes) w entry drop k h = k.0 w h
  push_wait-IsBounded (wake others ∷ wakes) w entry drop k h =
      let w' = put (receive (get (others w))) (others w) in
      let h' : IsBounded (get w') = rw (get-put (receive (get (others w))) (others w)) (k.0 w h) in
      elim (Bool-cases (is_ready (get (others w)))) [
        | inl ready ↦
            rw (ready, push_wait)
              (after_push-IsBounded _ w' _ (push_round-IsBounded (get w') entry drop) h'
                (push_wait-IsBounded wakes w' entry drop k.1 h'))
        | inr not_ready ↦
            rw (not_ready, push_wait)
              (push_wait-IsBounded wakes (others w) entry drop k.1 (k.0 w h))
      ]

  -- However often `push` waits, and whatever the others do to the world meanwhile that keeps the
  -- bound, the queue is within its capacity when `push` returns or still waits.
  pub push-IsBounded :
      (wakes : List (Wake W)) (w : W) (entry : JobEntry) (drop : Bool)
      → All KeepsBound wakes
      → IsBounded (get w)
      → IsBounded (get (push get put wakes w entry drop).0)
  unfolding push
  push-IsBounded wakes w entry drop k h =
      after_push-IsBounded _ w _ (push_round-IsBounded (get w) entry drop) h
        (push_wait-IsBounded wakes w entry drop k h)

  after_pop-IsBounded :
      (r : PopRound) (w : W) (rest : W × PopResult)
      → PopIsBounded r
      → IsBounded (get w)
      → IsBounded (get rest.0)
      → IsBounded (get (after_pop get put r w rest).0)
  after_pop-IsBounded (popped e q) w rest b h hr = rw (get-put q w) b
  after_pop-IsBounded ended w rest b h hr = h
  after_pop-IsBounded starved w rest b h hr = hr

  abbrev pub BoundKept : (W → W) → Type 0
  BoundKept others = (w : W) → IsBounded (get w) → IsBounded (get (others w))

  pop_wait-IsBounded :
      (wakes : List (W → W)) (w : W)
      → All BoundKept wakes
      → IsBounded (get w)
      → IsBounded (get (pop_wait get put wakes w).0)
  unfolding pop_wait
  pop_wait-IsBounded [] w k h = h
  pop_wait-IsBounded (others ∷ wakes) w k h =
      let w' = put (receive (get (others w))) (others w) in
      let h' : IsBounded (get w') = rw (get-put (receive (get (others w))) (others w)) (k.0 w h) in
      elim (Bool-cases (is_ready (get (others w)))) [
        | inl ready ↦
            rw (ready, pop_wait)
              (after_pop-IsBounded _ w' _ (pop_round-IsBounded (get w') h') h'
                (pop_wait-IsBounded wakes w' k.1 h'))
        | inr not_ready ↦
            rw (not_ready, pop_wait) (pop_wait-IsBounded wakes (others w) k.1 (k.0 w h))
      ]

  -- However often `pop` waits, and whatever the others do to the world meanwhile that keeps the
  -- bound, the queue is within its capacity when `pop` returns or still waits.
  pub pop-IsBounded :
      (wakes : List (W → W)) (w : W)
      → All BoundKept wakes
      → IsBounded (get w)
      → IsBounded (get (pop get put wakes w).0)
  unfolding pop
  pop-IsBounded wakes w k h =
      after_pop-IsBounded _ w _ (pop_round-IsBounded (get w) h) h (pop_wait-IsBounded wakes w k h)

-- With the drop policy `push` answers at once: it never waits, and it adds the entry exactly when
-- there is room.
pub push_drop :
    {W : Type 0} (get : W → ReadyQueue) (put : ReadyQueue → W → W) (wakes : List (Wake W)) (w : W)
    (entry : JobEntry)
    → (push get put wakes w entry true).1
      ≡ (if ltb (length (get w).items) (get w).capacity then pushed else failed err_queue_full)
unfolding push push_round
push_drop get put wakes w entry = ground arith
