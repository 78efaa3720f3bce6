-- ===== src/Scheduler/Wrappers/Firsts.antt =====
-- internal/core/scheduler.go: from a call of `DailyAt` to the time that the goroutine waits for.
use jobx.Prelude.{
  ℕ, ◌+◌, ◌-◌, ◌*◌, ◌/◌, ◌≤◌, ◌<◌, ◌≡◌, refl, sym, ap, ◌∙◌, Bool, true, false, List, [], ◌∷◌, ◌++◌,
  Option, none, some, arith, length, get_elem?, inl, inr, ◌⊎◌, ◌==◌, ◌&&◌,
}
use jobx.Text.{Text}
use jobx.Clock.{Time, Word}
use jobx.Errors.{Error, Result, ok, err}
use jobx.Cron.{Expr}
use jobx.Cron.Whole.{IsSound}
use jobx.Cron.Calendar.{
  IsHourly, Location, date_of, day_of, day_number, month_start, second_of, minute_of, hour_of,
}
use jobx.Cron.Calendar.Months.{day_number-civil, month_start_far}
use jobx.Cron.Next
use jobx.Cron.Next.{nanoseconds, scan_start, scan_limit}
use jobx.Cron.Next.Jumps.{matches}
use jobx.Cron.Next.Least.{IsNextFiring, next-IsNextFiring}
use jobx.Scheduler.{
  Plan, cron, ready, waiting, leaving, Cell, Scheduler, fresh_cell, register, register_with, new_id,
  checked, add_entry, Ending, ends, panics,
}
use jobx.Scheduler.Rounds.{begins, go}
use jobx.Scheduler.Wrappers.{daily_at}
use jobx.Scheduler.Wrappers.Times.{any, at, named, wrappers-FiresAt}
use jobx.Scheduler.Rounds.Begins.{begun, go_begins-begun}

-- The entry has been registered, and its goroutine is about to begin.
record IsRegistered (what : Plan) (p : ℕ) (s s' : Scheduler) : Type 0 where
  pub cell : Cell
  pub found : get_elem? s'.cells p ≡ some cell
  pub plan : cell.plan ≡ what
  pub phase : cell.phase ≡ ready
  pub loc : s'.loc ≡ s.loc

get_last : {A : Type 0} (l : List A) (x : A) → get_elem? (l ++ x ∷ []) (length l) ≡ some x
get_last [] x = refl
get_last (y ∷ l) x = get_last l x

fresh-IsRegistered :
    (id name : Text) (t : Time) (plan : Plan) (p : ℕ) (s s' : Scheduler)
    → length s.cells ≡ p
    → s'.cells ≡ s.cells ++ fresh_cell id name t plan ∷ []
    → s'.loc ≡ s.loc
    → IsRegistered plan p s s'
fresh-IsRegistered id name t plan p s s' e cells loc = record {
  cell = fresh_cell id name t plan;
  found = rw (cells, ← e) (get_last s.cells (fresh_cell id name t plan));
  plan = refl;
  phase = refl;
  loc = loc;
}

register-IsRegistered :
    (id name : Text) (t : Time) (plan : Plan) (p : ℕ) (s s' : Scheduler)
    → register id name t plan s ≡ (ok p, s')
    → IsRegistered plan p s s'
unfolding register
register-IsRegistered id name t plan p s s' h =
    fresh-IsRegistered id name t plan p s s' (ground arith) (ground arith) (ground arith)

register_with-IsRegistered :
    (id : Result Text) (name : Text) (t : Time) (plan : Plan) (p : ℕ) (s s' : Scheduler)
    → register_with (id, s) name t plan ≡ (ok p, s')
    → IsRegistered plan p s s'
unfolding register_with
register_with-IsRegistered (err e) name t plan p s s' h = absurd (ground arith)
register_with-IsRegistered (ok id) name t plan p s s' h =
    register-IsRegistered id name t plan p s s' h

checked-IsRegistered :
    (o : Option Error) (name : Text) (t : Time) (plan : Plan) (p : ℕ) (s s' : Scheduler)
    → checked o name t plan s ≡ (ok p, s')
    → IsRegistered plan p s s'
unfolding checked new_id
checked-IsRegistered (some e) name t plan p s s' h = absurd (ground arith)
checked-IsRegistered none name t plan p s s' h =
    let k = register_with-IsRegistered (new_id s).0 name t plan p (new_id s).1 s' h in
    record { cell = k.cell; found = k.found; plan = k.plan; phase = k.phase; loc = k.loc }

add_entry-IsRegistered :
    (name : Text) (t : Time) (plan : Plan) (p : ℕ) (s s' : Scheduler)
    → add_entry name t plan s ≡ (ok p, s')
    → IsRegistered plan p s s'
unfolding add_entry
add_entry-IsRegistered name t plan p s s' h = checked-IsRegistered _ name t plan p s s' h

-- The goroutine waits for the first time after `now` that has the property, or ends because there is
-- none before the limit of the scan.
abbrev pub WaitsFor : (ℕ → Bool) → Location → Time → Cell → Type 0
WaitsFor P loc now c =
    ((c.phase ≡ waiting)
      × ((u : ℕ) × (c.next ≡ u * nanoseconds)
          × (now < c.next)
          × (P u ≡ true)
          × ((s : ℕ) → now < s * nanoseconds → s < u → P s ≡ false)))
    ⊎ ((c.phase ≡ leaving)
        × ((s : ℕ) → now < s * nanoseconds → s < scan_limit loc now → P s ≡ false))

begun-WaitsFor :
    (e : Expr) (P : ℕ → Bool) (loc : Location) (now : Time) (c : Cell) (o : Option (Result Time))
    → ((t : ℕ) → matches e loc t ≡ P t)
    → IsNextFiring e loc now o
    → (r : Result Time) × (o ≡ some r) × WaitsFor P loc now (begun r c)
begun-WaitsFor e P loc now c none same k = absurd k
begun-WaitsFor e P loc now c (some (ok t)) same (u, is, later, on, off) =
    (ok t, refl, inl (refl, (u, is, later, sym (same u) ∙ on, λ s a b. sym (same s) ∙ off s a b)))
begun-WaitsFor e P loc now c (some (err x)) same (is, off) =
    (err x, refl, inr (refl, λ s a b. sym (same s) ∙ off s a b))

-- What becomes of a registered expression.
registered-WaitsFor :
    (e : Expr) (P : ℕ → Bool) (p : ℕ) (name : Text) (s s' : Scheduler) (now : Time)
    → IsSound e
    → ((t : ℕ) → matches e s.loc t ≡ P t)
    → add_entry name 0 (cron e) s ≡ (ok p, s')
    → IsHourly s.loc
    → 86400 * nanoseconds ≤ now
    → (c : Cell) × (get_elem? (go (begins now) p s').cells p ≡ some c) × WaitsFor P s.loc now c
registered-WaitsFor e P p name s s' now sound same h hours late =
    let k = add_entry-IsRegistered name 0 (cron e) p s s' h in
    let (r, found, waits) =
      begun-WaitsFor e P s.loc now k.cell (Next.next e s.loc now) same
        (next-IsNextFiring e s.loc now sound hours late) in
    let there = ap (λ l. Next.next e l now) k.loc ∙ found in
    (begun r k.cell, go_begins-begun e r now p k.cell s' k.found k.phase k.plan there, waits)

-- The scan goes on for two days at least.
scan_limit-far :
    (loc : Location) (hourly : IsHourly loc) (now : Time)
    → scan_start now + 172800 ≤ scan_limit loc now
unfolding day_number
scan_limit-far loc hourly now =
    let t = scan_start now in
    let c = date_of loc t in
    let i = 12 * c.year + (c.month - 1) in
    let later : 12 * (c.year + 5) + (c.month - 1) ≡ i + 60 = omega arith in
    omega (
      arith,
      hourly.same,
      day_number-civil (day_of loc t) 0,
      month_start_far i 60,
      ap month_start later,
    )

-- The time of the day on the day after that of `t`.
abbrev on_next_day : ℕ → ℕ → ℕ → ℕ → ℕ → ℕ
on_next_day shift t hour minute second =
    ((t + shift) / 86400 + 1) * 86400 + (hour * 3600 + minute * 60 + second) - shift

module _ (loc : Location) (hourly : IsHourly loc) (t hour minute second : ℕ) (hh : hour < 24)
    (hm : minute < 60) (hs : second < 60) where
  abbrev u : ℕ
  u = on_next_day hourly.shift t hour minute second

  on_next_day-later : t < u
  on_next_day-later = omega (arith, hh, hm, hs)

  on_next_day-near : u < t + 172800
  on_next_day-near = omega (arith, hh, hm, hs)

  on_next_day-named : named (at second) (at minute) (at hour) any loc u ≡ true
  on_next_day-named =
      let full : u + hourly.shift
          ≡ ((t + hourly.shift) / 86400 + 1) * 86400 + (hour * 3600 + minute * 60 + second) =
        omega arith in
      let e₁ : second_of loc u ≡ second = omega (arith, full, hourly.same u, hs) in
      let e₂ : minute_of loc u ≡ minute = omega (arith, full, hourly.same u, hs, hm) in
      let e₃ : hour_of loc u ≡ hour = omega (arith, full, hourly.same u, hs, hm, hh) in
      ground (arith, e₁, e₂, e₃)

-- The goroutine waits for the first time after `now` that has the property.
pub record IsWaiting (P : ℕ → Bool) (now : Time) (c : Cell) : Type 0 where
  pub phase : c.phase ≡ waiting
  pub time : ℕ
  pub next : c.next ≡ time * nanoseconds
  pub later : now < c.next
  pub on : P time ≡ true
  pub first : (s : ℕ) → now < s * nanoseconds → s < time → P s ≡ false

WaitsFor-IsWaiting :
    (P : ℕ → Bool) (loc : Location) (now : Time) (c : Cell) (v : ℕ)
    → P v ≡ true
    → now < v * nanoseconds
    → v < scan_limit loc now
    → WaitsFor P loc now c
    → IsWaiting P now c
WaitsFor-IsWaiting P loc now c v on low high (inl (phase, (time, next, later, yes_on, first))) =
    record { phase = phase; time = time; next = next; later = later; on = yes_on; first = first }
WaitsFor-IsWaiting P loc now c v on low high (inr (phase, off)) =
    absurd (let e = off v low high in cc)

abbrev un_ends : {A : Type 0} → A → Ending A → A
un_ends a (ends b) = b
un_ends a panics = a

-- What the clock of the location should show.
abbrev pub shows : Location → ℕ → ℕ → ℕ → ℕ → Bool
shows loc hour minute second t =
    second_of loc t == second && minute_of loc t == minute && hour_of loc t == hour

named-shows :
    (loc : Location) (hour minute second t : ℕ)
    → named (at second) (at minute) (at hour) any loc t ≡ shows loc hour minute second t
named-shows loc hour minute second t = ground arith

-- Where `DailyAt` with a time of the day registers an entry, the goroutine of the entry, when it
-- begins, waits for the first second after the time of its clock at which the clock of the location shows that
-- time of the day. The location has a fixed offset of whole hours, and the time is a day after the
-- zero time at least.
pub daily_at-IsWaiting :
    (hour minute second : Word) (name : Text) (s s' : Scheduler) (p : ℕ) (now : Time)
    → hour < 24
    → minute < 60
    → second < 60
    → daily_at hour minute second name s ≡ ends (ok p, s')
    → IsHourly s.loc
    → 86400 * nanoseconds ≤ now
    → (c : Cell) × (get_elem? (go (begins now) p s').cells p ≡ some c)
      × IsWaiting (shows s.loc hour minute second) now c
daily_at-IsWaiting hour minute second name s s' p now hh hm hs h hours late =
    let all =
      wrappers-FiresAt name s 0 hour minute second (omega arith) (omega arith) (omega arith)
        (omega arith) in
    let (e, registered, sound, same) = all.2.accepted (ground arith) in
    let added = ap (un_ends (ok p, s')) (sym registered ∙ h) in
    let shown = λ (t : ℕ). same s.loc t ∙ named-shows s.loc hour minute second t in
    let (c, found, waits) =
      registered-WaitsFor e (shows s.loc hour minute second) p name s s' now sound shown added hours
        late in
    let t = scan_start now in
    let v = on_next_day hours.shift t hour minute second in
    let later = on_next_day-later s.loc hours t hour minute second hh hm hs in
    let near = on_next_day-near s.loc hours t hour minute second hh hm hs in
    let on =
      sym (named-shows s.loc hour minute second v)
      ∙ on_next_day-named s.loc hours t hour minute second hh hm hs in
    (
      c,
      found,
      WaitsFor-IsWaiting (shows s.loc hour minute second) s.loc now c v on (omega (arith, later))
          (omega (arith, near, scan_limit-far s.loc hours now)) waits,
    )
