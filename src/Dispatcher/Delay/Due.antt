-- ===== src/Dispatcher/Delay/Due.antt =====
-- internal/core/dispatcher.go: what `popDue` moves to the ready queue, and in which order.
use Prim.Native.Nat.{min}
use mathlib.Core.List.{Perm, append-nil, append_assoc}
use mathlib.Core.List.Perm
use jobx.Prelude.{
  ℕ, zero, suc, ◌+◌, ◌≤◌, ◌<◌, ◌≡◌, refl, sym, ap, subst, ◌∙◌, true, false, List, [], ◌∷◌, ◌++◌,
  Option, none, some, arith, length, length-perm, length-append, ltb, if◌then◌else◌, Bool-cases,
  inl, inr, All, get_elem?,
}
use jobx.Prelude.Maps.{contains}
use jobx.Text.{Text, text_discrete}
use jobx.Clock.{Time}
use jobx.Job.{JobEntry}
use jobx.ReadyQueue.{push_round, signal, push}
use jobx.Heap
use jobx.Heap.Laws.{IsOrdered, first-least, Pops, pop-Pops}
use jobx.Heap.Bags.{lesser, least_of, least_of-perm, Pops-least}
use jobx.Dispatcher.State.{Dispatcher, Meanwhile, alone, Reply, returns, then_call}
use jobx.Dispatcher.Steps.{run_key, mark_status, metric, release_job, is_cancelled}
use jobx.Dispatcher.Delay.{
  due_head, is_due_now, take_delayed, note_queued, moved, move_due, move_taken, pop_due,
}

-- The entries whose jobs are not cancelled.
abbrev pub live : List Text → List JobEntry → List JobEntry
live cancelled [] = []
live cancelled (e ∷ l) =
    if contains text_discrete e.job.id cancelled then live cancelled l else e ∷ live cancelled l

-- What moving one entry does, where the queue has room for it.
record Moves (e : JobEntry) (d : Dispatcher) (r : Reply (Unit {0}) × Dispatcher) : Type 0 where
  pub reply : r.0 ≡ returns tt
  pub heap : r.1.delay_heap ≡ d.delay_heap
  pub cancelled : r.1.cancelled ≡ d.cancelled
  pub capacity : r.1.ready.capacity ≡ d.ready.capacity
  pub items : r.1.ready.items ≡ d.ready.items ++ live d.cancelled (e ∷ [])

move_due-Moves :
    (e : JobEntry) (d : Dispatcher)
    → length d.ready.items < d.ready.capacity
    → Moves e d (move_due alone e d)
unfolding move_due moved note_queued push push_round signal mark_status metric release_job
    is_cancelled
move_due-Moves e d room =
    let fits : ltb (length d.ready.items) d.ready.capacity ≡ true = ground arith in
    elim (Bool-cases (contains text_discrete e.job.id d.cancelled)) [
      | inl gone ↦ rw gone (record {
        reply = refl;
        heap = refl;
        cancelled = refl;
        capacity = refl;
        items = rw gone (sym (append-nil d.ready.items));
      })
      | inr kept ↦
          rw (kept, fits)
            (record {
              reply = refl;
              heap = refl;
              cancelled = refl;
              capacity = refl;
              items = rw kept refl;
            })
    ]

-- In the order of the run times, from a time on.
abbrev pub Ascends : Time → List JobEntry → Type 0
Ascends k [] = Unit
Ascends k (e ∷ l) = (k ≤ run_key e) × Ascends (run_key e) l

abbrev IsBelow : ℕ → Option ℕ → Type 0
IsBelow k none = Unit
IsBelow k (some m) = k ≤ m

-- What `popDue` comes to at the time `now`, where every entry runs at `k` or later.
pub record Delivers (k now : Time) (d : Dispatcher) (r : Reply (Unit {0}) × Dispatcher)
    : Type 0 where
  pub reply : r.0 ≡ returns tt
  pub moved : List JobEntry
  pub same : Perm (moved ++ r.1.delay_heap) d.delay_heap
  pub sorted : Ascends k moved
  pub due : All (λ e. run_key e ≤ now) moved
  pub items : r.1.ready.items ≡ d.ready.items ++ live d.cancelled moved
  pub left : is_due_now now r.1 ≡ false
  pub ordered : IsOrdered run_key r.1.delay_heap
  pub late : All (λ e. now < run_key e) r.1.delay_heap

live-cons :
    (c : List Text) (e : JobEntry) (l : List JobEntry)
    → live c (e ∷ l) ≡ live c (e ∷ []) ++ live c l
live-cons c e l = elim (Bool-cases (contains text_discrete e.job.id c)) [
  | inl gone ↦ rw gone refl
  | inr kept ↦ rw kept refl
]

-- Where the head of a heap in order is not due, nothing on it is.
all_late :
    (l : List JobEntry) (now : Time)
    → due_head (get_elem? l 0) now ≡ false
    → IsOrdered run_key l
    → All (λ e. now < run_key e) l
unfolding due_head
all_late [] now h ordered = tt
all_late (e ∷ l) now h ordered =
    let head : now < run_key e = ground arith in
    later_too (run_key e) (e ∷ l) head (first-least run_key (e ∷ l) ordered)
  where
    later_too :
        (k : ℕ) (m : List JobEntry)
        → now < k
        → All (λ y. k ≤ run_key y) m
        → All (λ y. now < run_key y) m
    later_too k [] lt a = tt
    later_too k (y ∷ m) lt a = (omega (arith, a.0), later_too k m lt a.1)

nothing-Delivers :
    (k now : Time) (d : Dispatcher)
    → is_due_now now d ≡ false
    → IsOrdered run_key d.delay_heap
    → Delivers k now d (returns tt, d)
unfolding is_due_now
nothing-Delivers k now d none_due ordered = record {
  reply = refl;
  moved = [];
  same = Perm.refl d.delay_heap;
  sorted = tt;
  due = tt;
  items = sym (append-nil d.ready.items);
  left = none_due;
  ordered = ordered;
  late = all_late d.delay_heap now none_due ordered;
}

lesser-IsBelow : (n : ℕ) (o : Option ℕ) → lesser run_key n o ≡ some n → IsBelow n o
lesser-IsBelow n none e = tt
lesser-IsBelow n (some m) e = let least : min n m ≡ n = ground arith in omega (arith, least)

due-head :
    (l : List JobEntry) (now : Time)
    → due_head (get_elem? l 0) now ≡ true
    → (e : JobEntry) × (get_elem? l 0 ≡ some e) × (run_key e ≤ now) × (0 < length l)
unfolding due_head
due-head [] now h = absurd (ground arith)
due-head (e ∷ l) now h = (e, refl, ground arith, omega arith)

no_head : (l : List JobEntry) (now : Time) → length l ≤ 0 → due_head (get_elem? l 0) now ≡ false
unfolding due_head
no_head [] now h = refl
no_head (e ∷ l) now h = absurd (omega arith)

-- The first round, where `e` is the entry that it takes, and the rounds after it.
module _ (k now : Time) (d : Dispatcher)
    (p : Pops run_key d.delay_heap (Heap.pop run_key d.delay_heap))
    (below : IsBelow k (least_of run_key d.delay_heap)) (e_due : run_key p.entry ≤ now) where
  abbrev rest_heap : List JobEntry
  rest_heap = (Heap.pop run_key d.delay_heap).1

  entry-low : k ≤ run_key p.entry
  entry-low =
      let least = Pops-least run_key d.delay_heap (Heap.pop run_key d.delay_heap) p in
      subst (IsBelow k) least below

  rest-IsBelow : IsBelow (run_key p.entry) (least_of run_key rest_heap)
  rest-IsBelow = lesser-IsBelow (run_key p.entry) (least_of run_key rest_heap) (
      least_of-perm run_key p.same
      ∙ Pops-least run_key d.delay_heap (Heap.pop run_key d.delay_heap) p)

  round-Delivers :
      (r : Reply (Unit {0}) × Dispatcher) (rest : Dispatcher → Reply (Unit {0}) × Dispatcher)
      → Moves p.entry (record d { delay_heap = rest_heap }) r
      → Delivers (run_key p.entry) now r.1 (rest r.1)
      → Delivers k now d (then_call r (λ _. rest))
  round-Delivers (reply, d₁) rest m t = rw m.reply (record {
    reply = t.reply;
    moved = p.entry ∷ t.moved;
    same =
        Perm.trans
          (Perm.cons p.entry
            (subst (λ h. Perm (t.moved ++ (rest d₁).1.delay_heap) h) m.heap t.same))
          p.same;
    sorted = (entry-low, t.sorted);
    due = (e_due, t.due);
    items =
        t.items
        ∙ ap (λ c. d₁.ready.items ++ live c t.moved) m.cancelled
        ∙ ap (λ i. i ++ live d.cancelled t.moved) m.items
        ∙ append_assoc d.ready.items (live d.cancelled (p.entry ∷ [])) (live d.cancelled t.moved)
        ∙ ap (λ l. d.ready.items ++ l) (sym (live-cons d.cancelled p.entry t.moved));
    left = t.left;
    ordered = t.ordered;
    late = t.late;
  })

head-least :
    (k : ℕ) (l : List JobEntry) (e : JobEntry)
    → get_elem? l 0 ≡ some e
    → All (λ y. k ≤ run_key y) l
    → k ≤ run_key e
head-least k [] e at h = absurd (ground arith)
head-least k (x ∷ l) e at h = let same : x ≡ e = ground arith in rw (← same) h.0

live-one : (c : List Text) (e : JobEntry) → length (live c (e ∷ [])) ≤ 1
live-one c e = ground arith

-- Nothing else happens during `popDue`.
abbrev pub alones : ℕ → List Meanwhile
alones zero = []
alones (suc n) = alone ∷ alones n

pop_rounds-Delivers :
    (n : ℕ) (k now : Time) (d : Dispatcher)
    → length d.delay_heap ≤ n
    → length d.ready.items + length d.delay_heap ≤ d.ready.capacity
    → IsOrdered run_key d.delay_heap
    → IsBelow k (least_of run_key d.delay_heap)
    → Delivers k now d (pop_due (alones n) now d)
unfolding pop_due is_due_now take_delayed move_taken
pop_rounds-Delivers zero k now d fuel room h below =
    let none_due = no_head d.delay_heap now fuel in
    rw none_due (nothing-Delivers k now d none_due h)
pop_rounds-Delivers (suc n) k now d fuel room h below =
    elim (Bool-cases (due_head (get_elem? d.delay_heap 0) now)) [
      | inr none_due ↦ rw (none_due, pop_due) (nothing-Delivers k now d none_due h)
      | inl some_due ↦
          let (e, at, early, full) = due-head d.delay_heap now some_due in
          let p = pop-Pops run_key d.delay_heap full h in
          let d₁ = record d { delay_heap = (Heap.pop run_key d.delay_heap).1 } in
          let m = move_due-Moves p.entry d₁ (omega arith) in
          let e_due : run_key p.entry ≤ now =
            omega (arith, head-least (run_key p.entry) d.delay_heap e at p.least, early) in
          rw (some_due, pop_due, p.first)
            (round-Delivers k now d p below e_due (move_due alone p.entry d₁)
              (pop_due (alones n) now) m
              (pop_rounds-Delivers n (run_key p.entry) now (move_due alone p.entry d₁).1
                (rw m.heap (omega (arith, length-perm p.same)))
                (rw (m.heap, m.items, m.capacity)
                  (omega (
                    arith,
                    length-perm p.same,
                    length-append d.ready.items (live d.cancelled (p.entry ∷ [])),
                    live-one d.cancelled p.entry,
                  )))
                (rw m.heap p.ordered) (rw m.heap (rest-IsBelow k now d p below e_due))))
    ]

-- While nothing else happens, and where the ready queue has room for the delayed jobs, `popDue` ends:
-- it moves the jobs that are due to the ready queue in the order of their run times, but for those
-- that are cancelled, and leaves the others on the heap, in heap order, each with a run time after `now`. A round for each
-- delayed job is enough.
pub pop_due-Delivers :
    (n : ℕ) (now : Time) (d : Dispatcher)
    → length d.delay_heap ≤ n
    → length d.ready.items + length d.delay_heap ≤ d.ready.capacity
    → IsOrdered run_key d.delay_heap
    → Delivers 0 now d (pop_due (alones n) now d)
pop_due-Delivers n now d fuel room h =
    pop_rounds-Delivers n 0 now d fuel room h (zero_below (least_of run_key d.delay_heap))
  where
    zero_below : (o : Option ℕ) → IsBelow 0 o
    zero_below none = tt
    zero_below (some m) = omega arith
