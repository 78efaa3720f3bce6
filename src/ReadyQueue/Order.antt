-- ===== src/ReadyQueue/Order.antt =====
-- internal/core/ready_queue.go: the order of the entries, and that none is lost or doubled.
use mathlib.Core.List.Perm
use mathlib.Core.List.Sublist
use mathlib.Core.List.{Perm, Sublist, perm_middle, perm_append_comm}
use jobx.Prelude.{
  zero, suc, ℕ, ◌≡◌, refl, Bool, true, List, [], ◌∷◌, ◌++◌, arith, length, append_assoc, ite, sym,
  ap, ◌∙◌,
}
use jobx.Text.{Text, text_discrete}
use jobx.Job.{JobEntry}
use jobx.ReadyQueue.{
  ReadyQueue, new_ready_queue, signal, PushRound, added, refused, waits, push_round, popped, ended,
  starved, PopRound, pop_items, pop_round, remove_items, remove, close,
}

-- A run of critical sections of the queue, in the order in which they take the lock.
pub data QueueOp : Type 0 where
  pushes : JobEntry → Bool → QueueOp
  pops closes : QueueOp
  removes : Text → QueueOp

-- The queue with what has been accepted, handed to workers and withdrawn, oldest first.
pub record History : Type 0 where
  pub queue : ReadyQueue
  pub accepted : List JobEntry
  pub delivered : List JobEntry
  pub withdrawn : List JobEntry

-- The entry that `remove` takes out.
find_entry : Text → List JobEntry → List JobEntry
find_entry id [] = []
find_entry id (entry ∷ items) =
    ite (text_discrete entry.job.id id) (entry ∷ []) (find_entry id items)

after_push_round : JobEntry → PushRound → History → History
after_push_round entry (added q) h = record h { queue = q; accepted = h.accepted ++ entry ∷ [] }
after_push_round entry (refused e) h = h
after_push_round entry waits h = h

after_pop_round : PopRound → History → History
after_pop_round (popped entry q) h = record h { queue = q; delivered = h.delivered ++ entry ∷ [] }
after_pop_round ended h = h
after_pop_round starved h = h

unfoldable pub step : QueueOp → History → History
unfolding after_push_round after_pop_round find_entry close remove pop_round
step (pushes entry drop) h = after_push_round entry (push_round h.queue entry drop) h
step pops h = after_pop_round (pop_round h.queue) h
step closes h = record h { queue = close h.queue }
step (removes id) h = record h {
  queue = (remove id h.queue).0;
  withdrawn = h.withdrawn ++ find_entry id h.queue.items;
}

unfoldable pub run : List QueueOp → History → History
run [] h = h
run (op ∷ ops) h = run ops (step op h)

pub start : ℕ → History
start capacity = record {
  queue = new_ready_queue capacity;
  accepted = [];
  delivered = [];
  withdrawn = [];
}

-- Oldest first: what was handed out, then what still waits.
abbrev pub served : History → List JobEntry
served h = h.delivered ++ h.queue.items

-- What was handed out and what still waits stands in the order of acceptance, and with what was
-- withdrawn makes up all that was accepted.
pub record IsFifo (h : History) : Type 0 where
  pub in_order : Sublist (served h) h.accepted
  pub complete : Perm (h.withdrawn ++ served h) h.accepted

-- The same of lists: `l` of `acc` has been served, in order, and `gone` has left.
record Splits (l gone acc : List JobEntry) : Type 0 where
  in_order : Sublist l acc
  complete : Perm (gone ++ l) acc

Splits-push :
    (l gone acc : List JobEntry) (e : JobEntry)
    → Splits l gone acc
    → Splits (l ++ e ∷ []) gone (acc ++ e ∷ [])
Splits-push l gone acc e s = record {
  in_order = Sublist.append s.in_order (Sublist.refl (e ∷ []));
  complete = rw (append_assoc gone l (e ∷ [])) at (Perm.append_right (e ∷ []) s.complete);
}

remove_items-sublist : (id : Text) (l : List JobEntry) → Sublist (remove_items id l).0 l
unfolding remove_items
remove_items-sublist id [] = Sublist.refl []
remove_items-sublist id (e ∷ l) =
    ground (arith, Sublist.cons e (Sublist.refl l), Sublist.cons-cons e (remove_items-sublist id l))

remove_items-perm :
    (id : Text) (l : List JobEntry) → Perm (find_entry id l ++ (remove_items id l).0) l
unfolding remove_items find_entry
remove_items-perm id [] = Perm.nil
remove_items-perm id (e ∷ l) = ground (
  arith,
  Perm.refl (e ∷ l),
  Perm.trans (perm_middle (find_entry id l) _) (Perm.cons e (remove_items-perm id l)),
)

swap_front-perm : (f d r : List JobEntry) → Perm (f ++ (d ++ r)) (d ++ (f ++ r))
swap_front-perm f d r =
    rw (← append_assoc f d r, ← append_assoc d f r) (Perm.append_right r (perm_append_comm f d))

Splits-remove :
    (d l gone acc : List JobEntry) (id : Text)
    → Splits (d ++ l) gone acc
    → Splits (d ++ (remove_items id l).0) (gone ++ find_entry id l) acc
Splits-remove d l gone acc id s = record {
  in_order = Sublist.trans (Sublist.append (Sublist.refl d) (remove_items-sublist id l)) s.in_order;
  complete = rw (append_assoc gone (find_entry id l) (d ++ (remove_items id l).0)) (
      Perm.trans
        (Perm.append_left gone (
          Perm.trans (swap_front-perm (find_entry id l) d _)
            (Perm.append_left d (remove_items-perm id l))))
        s.complete);
}

after_push_round-IsFifo :
    (h : History) (entry : JobEntry) (r : PushRound)
    → ((q : ReadyQueue) → r ≡ added q → q.items ≡ h.queue.items ++ entry ∷ [])
    → IsFifo h
    → IsFifo (after_push_round entry r h)
unfolding after_push_round
after_push_round-IsFifo h entry (added q) e s =
    let s' =
      Splits-push (served h) h.withdrawn h.accepted entry
        (record { in_order = s.in_order; complete = s.complete }) in
    let same : h.delivered ++ q.items ≡ served h ++ entry ∷ [] =
      rw (e q refl) (sym (append_assoc h.delivered h.queue.items (entry ∷ []))) in
    record { in_order = rw same s'.in_order; complete = rw same s'.complete }
after_push_round-IsFifo h entry (refused x) e s = s
after_push_round-IsFifo h entry waits e s = s

push_round-added :
    (q : ReadyQueue) (entry : JobEntry) (drop : Bool) (q' : ReadyQueue)
    → push_round q entry drop ≡ added q'
    → q'.items ≡ q.items ++ entry ∷ []
unfolding push_round
push_round-added q entry drop q' e = ground arith

after_pop_items-IsFifo :
    (h : History) (l : List JobEntry)
    → l ≡ h.queue.items
    → IsFifo h
    → IsFifo (after_pop_round (pop_items l h.queue) h)
unfolding after_pop_round pop_items
after_pop_items-IsFifo h [] e s = ground arith
after_pop_items-IsFifo h (x ∷ l) e s =
    let same : (h.delivered ++ x ∷ []) ++ l ≡ served h =
      append_assoc h.delivered (x ∷ []) l ∙ ap (◌++◌ h.delivered) e in
    record { in_order = rw same s.in_order; complete = rw same s.complete }

-- Each critical section keeps the order of acceptance and loses no entry.
pub step-IsFifo : (op : QueueOp) (h : History) → IsFifo h → IsFifo (step op h)
unfolding step
step-IsFifo (pushes entry drop) h s =
    after_push_round-IsFifo h entry _ (push_round-added h.queue entry drop) s
step-IsFifo pops h s = after_pop_items-IsFifo h h.queue.items refl s
step-IsFifo closes h s = record { in_order = s.in_order; complete = s.complete }
step-IsFifo (removes id) h s =
    let s' =
      Splits-remove h.delivered h.queue.items h.withdrawn h.accepted id
        (record { in_order = s.in_order; complete = s.complete }) in
    record { in_order = s'.in_order; complete = s'.complete }

run-IsFifo : (ops : List QueueOp) (h : History) → IsFifo h → IsFifo (run ops h)
unfolding run
run-IsFifo [] h s = s
run-IsFifo (op ∷ ops) h s = run-IsFifo ops (step op h) (step-IsFifo op h s)

-- After any sequence of critical sections on a new queue, what the workers got, followed by what
-- still waits, stands in the order in which `push` accepted it; together with what `remove` took
-- out it is all that was accepted, each entry as often.
pub run-start-IsFifo : (capacity : ℕ) (ops : List QueueOp) → IsFifo (run ops (start capacity))
unfolding start new_ready_queue
run-start-IsFifo capacity ops =
    run-IsFifo ops _ (record { in_order = Sublist.refl []; complete = Perm.nil })

-- The rounds of `pop` on a queue until it ends or starves: what is popped, and the last round.
pub drain : ℕ → ReadyQueue → List JobEntry × PopRound
drain zero q = ([], starved)
drain (suc fuel) q = elim (pop_round q) [
  | popped entry q' ↦ let (rest, last) = drain fuel q' in (entry ∷ rest, last)
  | ended ↦ ([], ended)
  | starved ↦ ([], starved)
]

drain-eq-items :
    (l : List JobEntry) (q : ReadyQueue)
    → q.items ≡ l
    → q.closed ≡ true
    → drain (suc (length l)) q ≡ (l, ended)
unfolding drain pop_round pop_items signal
drain-eq-items [] q e c = rw (e, pop_round, pop_items, c)
drain-eq-items (x ∷ l) q e c =
    rw (e, pop_round, pop_items) (rw (drain-eq-items l (signal (record q { items = l })) refl c))

-- Once a queue is closed, rounds of `pop` hand out every entry that it holds, in order, and the
-- next round tells the worker to stop.
pub drain-close : (q : ReadyQueue) → drain (suc (length q.items)) (close q) ≡ (q.items, ended)
unfolding close
drain-close q = drain-eq-items q.items _ refl refl
