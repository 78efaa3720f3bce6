-- ===== src/Scheduler/System/Closes.antt =====
-- internal/core/scheduler.go: no channel `stop` is closed twice.
use jobx.Prelude.{
  ℕ, ◌+◌, ◌≤◌, ◌≡◌, refl, ap, ◌∙◌, List, [], ◌∷◌, ◌++◌, Option, none, some, arith, length,
  length-append, ◌==◌, ltb, Bool-cases, inl, inr,
}
use jobx.Prelude.Maps.{lookup, delete}
use jobx.Text.{Text, text_discrete}
use jobx.Clock.{Time}
use jobx.Cron.Calendar.{Location}
use jobx.Dispatcher.State.{Dispatcher}
use jobx.Scheduler.{
  Plan, Scheduler, fresh_cell, register, taken, take_entry, take_all, pointers, close_stop, ends,
}
use jobx.Scheduler.Rounds.{go}
use jobx.Scheduler.Rounds.Keeps.{Keeps, go-Keeps}
use jobx.Scheduler.Rounds.Stops.{close_stop-Closes, close_stop-ends}
use jobx.Scheduler.System.{
  System, Step, registers, takes, takes_all, closes, goes, dispatches, Reach, here, later,
}
use jobx.Scheduler.Counts.{
  one_if, count, count-append, count-insert_le, count-delete_found, closed_at, closed_at-append,
  closed_at-beyond,
}

-- An entry is in the map, in the hands of one call, or closed, and only one of these, once; and every
-- entry that is in the map or in the hands of a call is there.
pub record IsSafe (y : System) : Type 0 where
  pub once :
      (p : ℕ)
      → count p (pointers y.sched.entries) + count p y.pending + one_if (closed_at p y.sched.cells)
        ≤ 1
  pub known :
      (p : ℕ)
      → length y.sched.cells ≤ p
      → count p (pointers y.sched.entries) + count p y.pending ≡ 0

Keeps-IsSafe :
    (s s' : Scheduler) (pending : List ℕ)
    → Keeps s s'
    → IsSafe (record { sched = s; pending = pending })
    → IsSafe (record { sched = s'; pending = pending })
Keeps-IsSafe s s' pending k safe = record {
  once = λ p. rw (k.closed p) (omega (arith, k.fewer p, safe.once p));
  known = λ p h. omega (arith, k.fewer p, k.size, safe.known p);
}

-- The three facts about an entry in a state.
abbrev total : System → ℕ → ℕ
total y p =
    count p (pointers y.sched.entries) + count p y.pending + one_if (closed_at p y.sched.cells)

register-IsSafe :
    (id name : Text) (next : Time) (plan : Plan) (y : System)
    → IsSafe y
    → IsSafe (record { sched = (register id name next plan y.sched).1; pending = y.pending })
unfolding register
register-IsSafe id name next plan y safe = elim (Bool-cases y.sched.stopped) [
  | inl down ↦ rw (down, register) (record { once = safe.once; known = safe.known })
  | inr up ↦
      let n : ℕ = length y.sched.cells in
      let c = fresh_cell id name next plan in
      rw (up, register)
        (record {
          once = λ p. rw (closed_at-append y.sched.cells c p refl) (
              ground (
                arith,
                count-insert_le p n id y.sched.entries,
                safe.once p,
                safe.known p,
                closed_at-beyond y.sched.cells p,
              ));
          known = λ p h. ground (
            arith,
            count-insert_le p n id y.sched.entries,
            safe.known p,
            length-append y.sched.cells (c ∷ []),
          );
        })
]

taken-found :
    (o : Option ℕ) (id : Text) (p : ℕ) (s s' : Scheduler)
    → taken o id s ≡ (some p, s')
    → (o ≡ some p) × (record s { entries = delete text_discrete id s.entries } ≡ s')
unfolding taken
taken-found none id p s s' h = absurd (ground arith)
taken-found (some q) id p s s' h = (ap (λ r. r.0) h, ap (λ r. r.1) h)

take-IsSafe :
    (id : Text) (p : ℕ) (s : Scheduler) (y : System)
    → take_entry id y.sched ≡ (some p, s)
    → IsSafe y
    → IsSafe (record { sched = s; pending = p ∷ y.pending })
unfolding take_entry
take-IsSafe id p s y h safe =
    let (found, same) = taken-found (lookup text_discrete id y.sched.entries) id p y.sched s h in
    rw (← same) (record {
      once = λ q. omega (arith, count-delete_found q p id y.sched.entries found, safe.once q);
      known =
          λ q beyond. omega (arith, count-delete_found q p id y.sched.entries found, safe.known q);
    })

close-IsSafe :
    (before after : List ℕ) (p : ℕ) (s : Scheduler) (y : System)
    → y.pending ≡ before ++ (p ∷ after)
    → close_stop p y.sched ≡ ends s
    → IsSafe y
    → IsSafe (record { sched = s; pending = before ++ after })
close-IsSafe before after p s y e h safe =
    let (open_yet, k) = close_stop-Closes p y.sched s h in
    let split = λ (q : ℕ). ap (count q) e ∙ count-append q before (p ∷ after) in
    record {
      once = λ q.
          rw k.entries
            (ground (arith, split q, count-append q before after, k.closed q, safe.once q));
      known = λ q beyond.
          rw k.entries (ground (arith, split q, count-append q before after, k.size, safe.known q));
    }

take_all-IsSafe :
    (y : System)
    → IsSafe y
    → IsSafe (record { sched = (take_all y.sched).1; pending = (take_all y.sched).0 ++ y.pending })
unfolding take_all
take_all-IsSafe y safe = record {
  once = λ q. omega (arith, count-append q (pointers y.sched.entries) y.pending, safe.once q);
  known =
      λ q beyond. omega (arith, count-append q (pointers y.sched.entries) y.pending, safe.known q);
}

-- Every step keeps the state safe.
Step-IsSafe : {y z : System} → Step y z → IsSafe y → IsSafe z
Step-IsSafe {y} (registers id name next plan) safe = register-IsSafe id name next plan y safe
Step-IsSafe {y} (takes id p s h) safe = take-IsSafe id p s y h safe
Step-IsSafe {y} (takes_all up) safe = take_all-IsSafe y safe
Step-IsSafe {y} (closes before after p s e h) safe = close-IsSafe before after p s y e h safe
Step-IsSafe {y} (goes ev p) safe =
    Keeps-IsSafe y.sched (go ev p y.sched) y.pending (go-Keeps ev p y.sched) safe
Step-IsSafe (dispatches d) safe = record { once = safe.once; known = safe.known }

pub Reach-IsSafe : {d : Dispatcher} {loc : Location} {y : System} → Reach d loc y → IsSafe y
Reach-IsSafe here = record { once = λ p. omega arith; known = λ p h. omega arith }
Reach-IsSafe (later r st) = Step-IsSafe st (Reach-IsSafe r)

-- However the registrations, the calls of `Stop` and `Shutdown`, the goroutines of the entries and the
-- dispatcher interleave, an entry that a call of `Stop` or `Shutdown` is about to close has a channel
-- that is still open: no channel is closed twice, and none of these calls panics.
pub Reach-close_stop :
    {d : Dispatcher} {loc : Location} {y : System}
    → Reach d loc y
    → (before after : List ℕ) (p : ℕ) → y.pending ≡ before ++ (p ∷ after)
    → (s : Scheduler) × (close_stop p y.sched ≡ ends s)
Reach-close_stop {y = y} r before after p e =
    let safe = Reach-IsSafe r in
    let held = ap (count p) e ∙ count-append p before (p ∷ after) in
    let self : one_if (p == p) ≡ 1 = ground arith in
    close_stop-ends p y.sched
      (elim (Bool-cases (ltb p (length y.sched.cells))) [
        | inl inside ↦ ground arith
        | inr outside ↦ absurd (ground (arith, safe.known p, held, self))
      ])
      (ground (arith, safe.once p, held, self))
