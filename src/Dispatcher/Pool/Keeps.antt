-- ===== src/Dispatcher/Pool/Keeps.antt =====
-- internal/core/dispatcher.go and internal/core/worker.go: how often a job stands anywhere, and the steps
-- that add none.
use jobx.Prelude.{ℕ, ◌+◌, ◌≤◌, ◌≡◌, refl, sym, ap, ◌∙◌, List, ◌∷◌, ◌++◌, some, arith}
use jobx.Text.{Text}
use jobx.Errors.{ok}
use jobx.Job.{JobEntry}
use jobx.ReadyQueue.{ReadyQueue, pop_round, popped}
use jobx.Heap.Laws.{IsOrdered}
use jobx.Dispatcher.State.{Dispatcher, Env}
use jobx.Dispatcher.Steps.{run_key, put_ready}
use jobx.Dispatcher.Cancel.Effects.{count_id}
use jobx.Dispatcher.Delay.{take_delayed}
use jobx.Dispatcher.Pool.{Worker, free, holds, checked, runs, uncancelled, Pool}
use jobx.Dispatcher.Pool.Counts.{
  one_of, total, total-split, count_id-cons, count_id-split, pop_round-popped, take_delayed-Takes,
}
use jobx.Dispatcher.Pool.Adds.{placed, Adds, the_entry}

-- A worker has an entry between `pop` and the end of the body of `runEntry`.
abbrev pub in_work : Text → Worker → ℕ
in_work id (holds e) = one_of id e
in_work id (checked e) = one_of id e
in_work id (runs e) = one_of id e
in_work id (uncancelled e) = one_of id e
in_work id _ = 0

-- How often an id stands anywhere.
unfoldable pub copies : Text → Pool → ℕ
copies id y = count_id id y.held + placed id y.disp + total (in_work id) y.workers

-- The random source never gives an id twice.
abbrev pub IsDistinct : Env → Type 0
IsDistinct env = (m n : ℕ) (id : Text) → env.random_hex m ≡ ok id → env.random_hex n ≡ ok id → m ≡ n

-- Every id stands in one place at most, once, and in none before it is made; the heap is in order.
pub record IsOnce (env : Env) (y : Pool) : Type 0 where
  pub same_env : y.disp.env ≡ env
  pub ordered : IsOrdered run_key y.disp.delay_heap
  pub once : (id : Text) → copies id y ≤ 1
  pub unmade :
      (id : Text) (n : ℕ) → y.disp.random_reads ≤ n → env.random_hex n ≡ ok id → copies id y ≡ 0

-- What every step but `buildEntry` does.
pub record Keeps (y z : Pool) : Type 0 where
  pub same_env : z.disp.env ≡ y.disp.env
  pub reads : y.disp.random_reads ≤ z.disp.random_reads
  pub ordered : IsOrdered run_key y.disp.delay_heap → IsOrdered run_key z.disp.delay_heap
  pub fewer : IsOrdered run_key y.disp.delay_heap → (id : Text) → copies id z ≤ copies id y

pub Keeps-IsOnce : {env : Env} {y z : Pool} → Keeps y z → IsOnce env y → IsOnce env z
Keeps-IsOnce k o = record {
  same_env = k.same_env ∙ o.same_env;
  ordered = k.ordered o.ordered;
  once = λ id. omega (arith, k.fewer o.ordered id, o.once id);
  unmade = λ id n h e.
      let before = o.unmade id n (omega (arith, k.reads)) e in
      omega (arith, k.fewer o.ordered id, before);
}

-- A step of the pool from what it does to the dispatcher, to the entries on their way and to the
-- workers.
pub Adds-Keeps :
    {more : Text → ℕ} (y : Pool) (d : Dispatcher) (es : List JobEntry) (ws : List Worker)
    → Adds more y.disp d
    → ((id : Text)
        → more id + count_id id es + total (in_work id) ws
          ≤ count_id id y.held + total (in_work id) y.workers)
    → Keeps y (record { disp = d; held = es; workers = ws })
unfolding copies
Adds-Keeps y d es ws a rest = record {
  same_env = a.same_env;
  reads = a.reads;
  ordered = a.ordered;
  fewer = λ h id. omega (arith, a.placed_le h id, rest id);
}

-- A step of a worker.
pub turn-Keeps :
    {more : Text → ℕ} (y : Pool) (d : Dispatcher) (ws vs : List Worker) (w w' : Worker)
    → y.workers ≡ ws ++ (w ∷ vs)
    → Adds more y.disp d
    → ((id : Text) → more id + in_work id w' ≤ in_work id w)
    → Keeps y (record y { disp = d; workers = ws ++ (w' ∷ vs) })
turn-Keeps y d ws vs w w' e a rest = Adds-Keeps y d y.held (ws ++ (w' ∷ vs)) a λ id. omega (
  arith,
  ap (total (in_work id)) e,
  total-split (in_work id) ws vs w,
  total-split (in_work id) ws vs w',
  rest id,
)

-- The entry that leaves the hands of a call comes to stand where the step puts it.
pub place-Keeps :
    (y : Pool) (d : Dispatcher) (ks ls : List JobEntry) (e : JobEntry)
    → y.held ≡ ks ++ (e ∷ ls)
    → Adds (the_entry e) y.disp d
    → Keeps y (record y { disp = d; held = ks ++ ls })
place-Keeps y d ks ls e h a =
    Adds-Keeps y d (ks ++ ls) y.workers a λ id. omega (arith, count_id-split id y.held ks ls e h)

pub takes-Keeps :
    (y : Pool) (d : Dispatcher) (e : JobEntry)
    → take_delayed y.disp ≡ (some e, d)
    → Keeps y (record y { disp = d; held = e ∷ y.held })
unfolding take_delayed copies
takes-Keeps y d e h =
    let items : y.disp.ready ≡ d.ready = ap (λ r. r.1.ready) h in
    record {
      same_env = sym (ap (λ r. r.1.env) h);
      reads = omega (arith, ap (λ r. r.1.random_reads) h);
      ordered = λ o. (take_delayed-Takes e y.disp d o h).ordered;
      fewer = λ o id. omega (
        arith,
        (take_delayed-Takes e y.disp d o h).there id,
        count_id-cons id e y.held,
        ap (λ q. count_id id q.items) items,
      );
    }

pub pops-Keeps :
    (y : Pool) (ws vs : List Worker) (e : JobEntry) (q : ReadyQueue)
    → y.workers ≡ ws ++ (free ∷ vs)
    → pop_round y.disp.ready ≡ popped e q
    → Keeps y (record y { disp = put_ready q y.disp; workers = ws ++ (holds e ∷ vs) })
unfolding copies
pops-Keeps y ws vs e q h p = record {
  same_env = refl;
  reads = omega arith;
  ordered = λ o. o;
  fewer = λ o id. omega (
    arith,
    ap (total (in_work id)) h,
    total-split (in_work id) ws vs free,
    total-split (in_work id) ws vs (holds e),
    pop_round-popped id y.disp.ready q e p,
  );
}
