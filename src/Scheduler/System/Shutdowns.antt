-- ===== src/Scheduler/System/Shutdowns.antt =====
-- internal/core/scheduler.go: `Shutdown`, and what the scheduler does after it.
use jobx.Prelude.{
  ℕ, ◌+◌, ◌≤◌, ◌≡◌, refl, sym, ap, ◌∙◌, true, false, List, [], ◌∷◌, Option, none, some, arith, ◌==◌,
  Bool-cases, inl, inr,
}
use jobx.Prelude.Maps.{lookup}
use jobx.Text.{Text, text_discrete}
use jobx.Clock.{Time}
use jobx.Errors.{Error, Result, ok, err, wrap_code, new_code, id_generate_failed, scheduler_stopped}
use jobx.Cron.Calendar.{Location}
use jobx.Dispatcher.State.{Dispatcher}
use jobx.Scheduler.{check_handler}
use jobx.Scheduler.{
  Plan, Scheduler, register, register_with, new_id, checked, add_entry, list, shown_all, take_entry,
  taken, take_all, pointers, ends,
}
use jobx.Scheduler.Rounds.{shut, shutdown}
use jobx.Scheduler.Rounds.Keeps.{go-Keeps}
use jobx.Scheduler.Rounds.Stops.{AreOpen, close_all-AllClosed, close_stop-Closes}
use jobx.Scheduler.Counts.{one_if, count, closed_at}
use jobx.Scheduler.System.{
  System, Step, registers, takes, takes_all, closes, goes, dispatches, Reach, here, later,
}
use jobx.Scheduler.System.Closes.{IsSafe, Reach-IsSafe}

-- The error of a registration with a stopped scheduler: that of its name, if it has one, then that of
-- the random source, and else the one of a stopped scheduler.
abbrev refusal_of : Option Error → Result Text → Error
refusal_of (some e) id = e
refusal_of none (err e) = wrap_code e id_generate_failed
refusal_of none (ok id) = new_code scheduler_stopped

abbrev pub refusal : Text → Scheduler → Error
refusal name s = refusal_of (check_handler name s) (new_id s).0

-- A registration ends with the error `e`, and adds nothing.
pub record IsRefused (e : Error) (s : Scheduler) (r : Result ℕ × Scheduler) : Type 0 where
  pub error : r.0 ≡ err e
  pub cells : r.1.cells ≡ s.cells
  pub entries : r.1.entries ≡ s.entries
  pub stopped : r.1.stopped ≡ s.stopped

register_with-IsRefused :
    (id : Result Text) (name : Text) (next : Time) (plan : Plan) (s s' : Scheduler)
    → s.stopped ≡ true
    → s'.cells ≡ s.cells
    → s'.entries ≡ s.entries
    → s'.stopped ≡ s.stopped
    → IsRefused (refusal_of none id) s (register_with (id, s') name next plan)
unfolding register_with register
register_with-IsRefused (err e) name next plan s s' down a b c = record {
  error = refl;
  cells = a;
  entries = b;
  stopped = c;
}
register_with-IsRefused (ok id) name next plan s s' down a b c =
    rw (c ∙ down) (record { error = refl; cells = a; entries = b; stopped = sym down })

checked-IsRefused :
    (o : Option Error) (name : Text) (next : Time) (plan : Plan) (s : Scheduler)
    → s.stopped ≡ true
    → IsRefused (refusal_of o (new_id s).0) s (checked o name next plan s)
unfolding checked new_id
checked-IsRefused (some e) name next plan s down = record {
  error = refl;
  cells = refl;
  entries = refl;
  stopped = refl;
}
checked-IsRefused none name next plan s down =
    register_with-IsRefused _ name next plan s _ down refl refl refl

-- Every registration of a stopped scheduler is refused.
pub add_entry-IsRefused :
    (name : Text) (next : Time) (plan : Plan) (s : Scheduler)
    → s.stopped ≡ true
    → IsRefused (refusal name s) s (add_entry name next plan s)
unfolding add_entry
add_entry-IsRefused name next plan s down = checked-IsRefused _ name next plan s down

-- The scheduler after `Shutdown` has closed the channels: nothing is scheduled, the channel of every
-- entry that was on the map is closed, and no registration succeeds.
pub record IsDown (s s' : Scheduler) : Type 0 where
  pub stopped : s'.stopped ≡ true
  pub entries : s'.entries ≡ []
  pub closed :
      (p : ℕ)
      → one_if (closed_at p s'.cells) ≡ count p (pointers s.entries) + one_if (closed_at p s.cells)
  pub refused :
      (name : Text) (next : Time) (plan : Plan)
      → IsRefused (refusal name s') s' (add_entry name next plan s')

pending_AreOpen : (y : System) → IsSafe y → AreOpen (pointers y.sched.entries) y.sched.cells
pending_AreOpen y safe = record {
  once = λ p. omega (arith, safe.once p);
  known = λ p h. omega (arith, safe.known p h);
}

shutdown-IsDown :
    (s : Scheduler)
    → s.stopped ≡ false
    → AreOpen (pointers s.entries) s.cells
    → (s' : Scheduler) × (shutdown s ≡ ends s') × IsDown s s'
unfolding shutdown shut take_all
shutdown-IsDown s up open_all =
    let (s', e, a) = close_all-AllClosed (pointers s.entries) (take_all s).1 open_all in
    (
      s',
      rw up e,
      record {
        stopped = a.stopped;
        entries = a.entries;
        closed = a.closed;
        refused = λ name next plan. add_entry-IsRefused name next plan s' a.stopped;
      },
    )

-- Whatever has happened before, the first `Shutdown` reaches its wait: it closes the channel of every
-- entry on the map, leaves nothing scheduled, and afterwards every registration is refused, with
-- `ErrSchedulerStopped` if its name and the random source are in order, and changes no entry.
pub Reach-shutdown :
    {d : Dispatcher} {loc : Location} {y : System}
    → Reach d loc y
    → y.sched.stopped ≡ false
    → (s' : Scheduler) × (shutdown y.sched ≡ ends s') × IsDown y.sched s'
Reach-shutdown {y = y} r up = shutdown-IsDown y.sched up (pending_AreOpen y (Reach-IsSafe r))

-- Where the map is empty once the scheduler is stopped.
pub record IsOver (s : Scheduler) : Type 0 where
  pub empty : s.stopped ≡ true → s.entries ≡ []

no_pointers : (m : List (Text × ℕ)) → ((q : ℕ) → count q (pointers m) ≤ 0) → m ≡ []
no_pointers [] h = refl
no_pointers ((id, p) ∷ m) h =
    let self : one_if (p == p) ≡ 1 = ground arith in absurd (ground (arith, h p, self))

fewer-IsOver :
    (m m' : List (Text × ℕ))
    → ((q : ℕ) → count q (pointers m') ≤ count q (pointers m))
    → m ≡ []
    → m' ≡ []
fewer-IsOver m m' fewer e = no_pointers m' (λ q. rw e at (fewer q))

register-IsOver :
    (id name : Text) (next : Time) (plan : Plan) (s : Scheduler)
    → IsOver s
    → IsOver (register id name next plan s).1
unfolding register
register-IsOver id name next plan s over = elim (Bool-cases s.stopped) [
  | inl down ↦ rw (down, register) (record { empty = λ _. over.empty down })
  | inr up ↦ rw (up, register) (record { empty = λ down. absurd (ground arith) })
]

taken-IsOver :
    (o : Option ℕ) (id : Text) (p : ℕ) (s s' : Scheduler)
    → taken o id s ≡ (some p, s')
    → (s.entries ≡ [] → o ≡ none)
    → IsOver s
    → IsOver s'
unfolding taken
taken-IsOver none id p s s' h none_there over = absurd (ground arith)
taken-IsOver (some q) id p s s' h none_there over =
    rw (← ap (λ r. r.1) h)
      (record { empty = λ down. let e = none_there (over.empty down) in absurd (ground arith) })

take-IsOver :
    (id : Text) (p : ℕ) (s s' : Scheduler) → take_entry id s ≡ (some p, s') → IsOver s → IsOver s'
unfolding take_entry lookup
take-IsOver id p s s' h over =
    taken-IsOver (lookup text_discrete id s.entries) id p s s' h (ap (lookup text_discrete id)) over

Step-IsOver : {y z : System} → Step y z → IsOver y.sched → IsOver z.sched
unfolding take_all
Step-IsOver {y} (registers id name next plan) over = register-IsOver id name next plan y.sched over
Step-IsOver {y} (takes id p s h) over = take-IsOver id p y.sched s h over
Step-IsOver (takes_all up) over = record { empty = λ down. refl }
Step-IsOver {y} (closes before after p s e h) over =
    let k = (close_stop-Closes p y.sched s h).1 in
    record { empty = λ down. k.entries ∙ over.empty (sym k.stopped ∙ down) }
Step-IsOver {y} (goes ev p) over =
    let k = go-Keeps ev p y.sched in
    record { empty = λ down. fewer-IsOver _ _ k.fewer (over.empty (sym k.stopped ∙ down)) }
Step-IsOver (dispatches d) over = record { empty = over.empty }

Reach-IsOver : {d : Dispatcher} {loc : Location} {y : System} → Reach d loc y → IsOver y.sched
Reach-IsOver here = record { empty = λ down. refl }
Reach-IsOver (later r st) = Step-IsOver st (Reach-IsOver r)

-- However the calls and the goroutines interleave, once `Shutdown` has marked the scheduler as
-- stopped, `List` shows no entry, and every registration is refused and adds none.
pub Reach-list :
    {d : Dispatcher} {loc : Location} {y : System}
    → Reach d loc y
    → y.sched.stopped ≡ true
    → (list y.sched ≡ [])
      × ((name : Text) (next : Time) (plan : Plan)
          → IsRefused (refusal name y.sched) y.sched (add_entry name next plan y.sched))
unfolding list shown_all
Reach-list {y = y} r down = (
  rw ((Reach-IsOver r).empty down) refl,
  λ name next plan. add_entry-IsRefused name next plan y.sched down,
)
