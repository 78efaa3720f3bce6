-- ===== src/Scheduler/Rounds/Stops.antt =====
-- internal/core/scheduler.go: `Shutdown` up to its wait, and what the registrations do after it.
use jobx.Prelude.{
  ℕ, zero, suc, ◌+◌, ◌≤◌, ◌<◌, ◌≡◌, refl, sym, ap, ◌∙◌, true, false, List, [], ◌∷◌, Option, none,
  some, arith, length, get_elem?, set, length-set, ◌==◌, if◌then◌else◌, Bool-cases, inl, inr, ltb,
}
use jobx.Scheduler.{Cell, Scheduler, close_cell, close_stop, ends}
use jobx.Scheduler.Rounds.{close_all}
use jobx.Scheduler.Counts.{one_if, count, closed_of, closed_at, closed_at-set}

-- The channel of `p` has been closed, and nothing else has changed.
pub record Closes (p : ℕ) (s s' : Scheduler) : Type 0 where
  pub closed : (q : ℕ) → closed_at q s'.cells ≡ (if p == q then true else closed_at q s.cells)
  pub size : length s'.cells ≡ length s.cells
  pub entries : s'.entries ≡ s.entries
  pub stopped : s'.stopped ≡ s.stopped

close_cell-found :
    (o : Option Cell) (p : ℕ) (s s' : Scheduler)
    → close_cell o p s ≡ ends s'
    → (c : Cell) × (o ≡ some c)
      × (c.stop_closed ≡ false)
      × (record s { cells = set s.cells p (record c { stop_closed = true }) } ≡ s')
unfolding close_cell
close_cell-found none p s s' h = absurd (ground arith)
close_cell-found (some c) p s s' h = (c, refl, ground arith, ground arith)

pub close_stop-found :
    (p : ℕ) (s s' : Scheduler)
    → close_stop p s ≡ ends s'
    → (c : Cell) × (get_elem? s.cells p ≡ some c)
      × (c.stop_closed ≡ false)
      × (record s { cells = set s.cells p (record c { stop_closed = true }) } ≡ s')
unfolding close_stop
close_stop-found p s s' h = close_cell-found (get_elem? s.cells p) p s s' h

set-Closes :
    (p : ℕ) (c : Cell) (s : Scheduler)
    → get_elem? s.cells p ≡ some c
    → Closes p s (record s { cells = set s.cells p (record c { stop_closed = true }) })
set-Closes p c s at = record {
  closed = λ q. closed_at-set s.cells q p c _ at;
  size = length-set s.cells p _;
  entries = refl;
  stopped = refl;
}

-- Where the channel was open, `close` closes it.
pub close_stop-Closes :
    (p : ℕ) (s s' : Scheduler)
    → close_stop p s ≡ ends s'
    → (closed_at p s.cells ≡ false) × Closes p s s'
close_stop-Closes p s s' h =
    let (c, at, open_yet, same) = close_stop-found p s s' h in
    (ap closed_of at ∙ open_yet, rw (← same) (set-Closes p c s at))

cell_within :
    (cells : List Cell) (p : ℕ) → p < length cells → (c : Cell) × (get_elem? cells p ≡ some c)
cell_within [] p h = absurd (omega arith)
cell_within (c ∷ cells) zero h = (c, refl)
cell_within (c ∷ cells) (suc p) h = cell_within cells p (omega arith)

pub close_stop-ends :
    (p : ℕ) (s : Scheduler)
    → p < length s.cells
    → closed_at p s.cells ≡ false
    → (s' : Scheduler) × (close_stop p s ≡ ends s')
unfolding close_stop close_cell
close_stop-ends p s inside open_yet =
    let (c, at) = cell_within s.cells p inside in
    let not_closed : c.stop_closed ≡ false = ap closed_of (sym at) ∙ open_yet in
    (record s { cells = set s.cells p (record c { stop_closed = true }) }, rw (at, not_closed) refl)

-- The entries of a list are there, once each, and open.
pub record AreOpen (ps : List ℕ) (cells : List Cell) : Type 0 where
  pub once : (p : ℕ) → count p ps + one_if (closed_at p cells) ≤ 1
  pub known : (p : ℕ) → length cells ≤ p → count p ps ≡ 0

-- The channels of the entries of a list have been closed, and nothing else has changed.
pub record AllClosed (ps : List ℕ) (s s' : Scheduler) : Type 0 where
  pub closed : (p : ℕ) → one_if (closed_at p s'.cells) ≡ count p ps + one_if (closed_at p s.cells)
  pub entries : s'.entries ≡ s.entries
  pub stopped : s'.stopped ≡ s.stopped

Closes-AllClosed :
    (p : ℕ) (ps : List ℕ) (s s' s'' : Scheduler)
    → AreOpen (p ∷ ps) s.cells
    → Closes p s s'
    → AllClosed ps s' s''
    → AllClosed (p ∷ ps) s s''
Closes-AllClosed p ps s s' s'' o k a = record {
  closed = λ q. ground (arith, a.closed q, k.closed q, o.once q);
  entries = a.entries ∙ k.entries;
  stopped = a.stopped ∙ k.stopped;
}

Closes-AreOpen :
    (p : ℕ) (ps : List ℕ) (s s' : Scheduler)
    → AreOpen (p ∷ ps) s.cells
    → Closes p s s'
    → AreOpen ps s'.cells
Closes-AreOpen p ps s s' o k = record {
  once = λ q. ground (arith, o.once q, k.closed q);
  known = λ q h. ground (arith, o.known q, k.size);
}

head-AreOpen :
    (p : ℕ) (ps : List ℕ) (cells : List Cell)
    → AreOpen (p ∷ ps) cells
    → (p < length cells) × (closed_at p cells ≡ false)
head-AreOpen p ps cells o =
    let self : one_if (p == p) ≡ 1 = ground arith in
    (
      elim (Bool-cases (ltb p (length cells))) [
        | inl inside ↦ ground arith
        | inr outside ↦ absurd (ground (arith, o.known p, self))
      ],
      ground (arith, o.once p, self),
    )

pub close_all-AllClosed :
    (ps : List ℕ) (s : Scheduler)
    → AreOpen ps s.cells
    → (s' : Scheduler) × (close_all ps s ≡ ends s') × AllClosed ps s s'
unfolding close_all
close_all-AllClosed [] s o =
    (s, refl, record { closed = λ p. omega arith; entries = refl; stopped = refl })
close_all-AllClosed (p ∷ ps) s o =
    let (inside, open_yet) = head-AreOpen p ps s.cells o in
    let (s', e) = close_stop-ends p s inside open_yet in
    let k = (close_stop-Closes p s s' e).1 in
    let (s'', e', a) = close_all-AllClosed ps s' (Closes-AreOpen p ps s s' o k) in
    (s'', rw (e, close_all) e', Closes-AllClosed p ps s s' s'' o k a)
