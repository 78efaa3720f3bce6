-- ===== src/Tests/Schedules.antt =====
-- internal/core/scheduler.go at concrete inputs.
use jobx.Prelude.{ℕ, ◌*◌, ◌-◌, ◌^◌, ◌≡◌, refl, true, false, [], ◌∷◌, none, some, arith, get_elem?}
use jobx.Prelude.Maps.{lookup, insert, delete}
use jobx.Text.{text_discrete}
use jobx.Errors.{Result, ok, err, err_job_not_found, err_invalid_config}
use jobx.Logs.{nop_logger, normalize_logger}
use jobx.Cron.Calendar.{utc}
use jobx.Cron.Next.{nanoseconds}
use jobx.Dispatcher.State.{alone}
use jobx.Scheduler.{
  Scheduler, every, cron, waiting, Cell, fresh_cell, register, take_entry, take_all, close_stop,
  ends, new_scheduler, with_location, configure, add_entry,
}
use jobx.Scheduler.Rounds.{go, timer, removes, stop, shutdown, is_done}
use jobx.Scheduler.Rounds.Ends.{drive}
use jobx.Scheduler.Rounds.Halts.{stop-is_done}
use jobx.Scheduler.Rounds.Skipped.{HasLeft, go_timer-skipped}
use jobx.Scheduler.System.{System, Reach, here, later, registers, takes, takes_all}
use jobx.Scheduler.System.Closes.{Reach-close_stop}
use jobx.Scheduler.System.Shutdowns.{IsDown, Reach-shutdown}
use jobx.Scheduler.Wrappers.{
  decimal, digits_before, spaced, star, daily_at, every_minute_at, every_hour_at, weekly_at,
}
use jobx.Scheduler.Wrappers.Firsts.{shows, IsWaiting, daily_at-IsWaiting}
use jobx.Cron.{parse, parse_field, parse_parts, parse_part, part_of_base, apply_part, mark_steps}
use jobx.Dispatcher.Steps.{validate_name, task_name_rule}
use jobx.Scheduler.{panics, add_parsed, add_entry, check_handler, Ending, new_id}
use jobx.Scheduler.Wrappers.{add_cron}
use jobx.Scheduler.Rounds.{begins}
use jobx.Scheduler.Wrappers.Times.{FiresAt, any, at, wrappers-FiresAt}
use jobx.Tests.Samples.{mail, id_a, idle_dispatcher, busy_dispatcher}
use jobx.Tests.Crons.{at_nine}
use jobx.Tests.Firings.{utc-IsHourly, nine-IsSound}

-- The text that `DailyAt(9, 5, 0)` writes: "0 5 9 * * *".
daily_text :
    spaced (decimal 0) (decimal 5 ∷ decimal 9 ∷ star ∷ star ∷ star ∷ [])
    ≡ 48 ∷ 32 ∷ 53 ∷ 32 ∷ 57 ∷ 32 ∷ 42 ∷ 32 ∷ 42 ∷ 32 ∷ 42 ∷ []
unfolding spaced decimal digits_before
daily_text = refl

signed_text : (decimal 120 ≡ 49 ∷ 50 ∷ 48 ∷ []) × (decimal (2 ^ 64 - 1) ≡ 45 ∷ 49 ∷ [])
unfolding decimal digits_before
signed_text = (refl, refl)

abbrev scheduler : Scheduler
scheduler = record {
  dispatcher = idle_dispatcher;
  loc = utc;
  logger = nop_logger;
  warnings = [];
  cells = [];
  entries = [];
  stopped = false;
}

built :
    (new_scheduler (some idle_dispatcher) utc [] ≡ ok scheduler)
    × (new_scheduler (some idle_dispatcher) utc (with_location none ∷ []) ≡ err err_invalid_config)
    × (new_scheduler none utc [] ≡ err err_invalid_config)
unfolding new_scheduler with_location configure normalize_logger
built = (refl, refl, refl)

wrappers-FiresAt_example :
    FiresAt mail scheduler (at 7) any any any (every_minute_at 7 mail scheduler)
    × FiresAt mail scheduler (at 0) (at 5) any any (every_hour_at 5 mail scheduler)
    × FiresAt mail scheduler (at 7) (at 5) (at 24) any (daily_at 24 5 7 mail scheduler)
    × FiresAt mail scheduler (at 7) (at 5) (at 24) (at 3) (weekly_at 3 24 5 7 mail scheduler)
wrappers-FiresAt_example =
    wrappers-FiresAt mail scheduler 3 24 5 7 (omega arith) (omega arith) (omega arith) (omega arith)

-- A scheduler with an entry, and with one that `Stop` has taken off the map.
abbrev second : ℕ
second = 10 ^ 9

abbrev one_entry : System
one_entry = record {
  sched = record scheduler {
    cells = fresh_cell id_a mail 0 (every second) ∷ [];
    entries = (id_a, 0) ∷ [];
  };
  pending = [];
}

abbrev one_taken : System
one_taken = record {
  sched = record scheduler { cells = fresh_cell id_a mail 0 (every second) ∷ [] };
  pending = 0 ∷ [];
}

one_entry-Reach : Reach idle_dispatcher utc one_entry
unfolding register insert
one_entry-Reach = later here (registers id_a mail 0 (every second))

one_taken-Reach : Reach idle_dispatcher utc one_taken
unfolding take_entry lookup text_discrete delete
one_taken-Reach = later one_entry-Reach (takes id_a 0 one_taken.sched refl)

Reach-close_stop_example : (s : Scheduler) × (close_stop 0 one_taken.sched ≡ ends s)
Reach-close_stop_example = Reach-close_stop one_taken-Reach [] [] 0 refl

Reach-shutdown_example :
    (s : Scheduler) × (shutdown one_entry.sched ≡ ends s) × IsDown one_entry.sched s
Reach-shutdown_example = Reach-shutdown one_entry-Reach refl

abbrev shut_down : System
shut_down = record {
  sched = record scheduler { cells = fresh_cell id_a mail 0 (every second) ∷ []; stopped = true };
  pending = 0 ∷ [];
}

shut_down-Reach : Reach idle_dispatcher utc shut_down
unfolding take_all
shut_down-Reach = later one_entry-Reach (takes_all refl)

-- A goroutine that waits for nine o'clock.
abbrev waits_for_nine : Cell
waits_for_nine = record (fresh_cell id_a mail (378000 * nanoseconds) (cron at_nine)) {
  phase = waiting;
}

abbrev at_work : Scheduler
at_work = record scheduler { cells = waits_for_nine ∷ []; entries = (id_a, 0) ∷ [] }

abbrev told_to_stop : Scheduler
told_to_stop = record scheduler { cells = record waits_for_nine { stop_closed = true } ∷ [] }

told : stop id_a at_work ≡ ends (ok 0, told_to_stop)
unfolding stop take_entry close_stop lookup text_discrete delete
told = refl

stop-is_done_example :
    (stop id_a told_to_stop ≡ ends (err err_job_not_found, told_to_stop))
    × (is_done (get_elem? (drive (172800 * nanoseconds) 0 told_to_stop).cells 0) ≡ true)
stop-is_done_example =
    stop-is_done id_a 0 waits_for_nine at_work told_to_stop (172800 * nanoseconds) told refl
      (λ e. cc) nine-IsSound utc-IsHourly (omega arith)

-- The same entry, while a job of its name is in flight.
abbrev busy_at_work : Scheduler
busy_at_work = record at_work { dispatcher = busy_dispatcher }

go_timer-skipped_example :
    HasLeft 0 id_a mail [] (go (timer alone 0) 0 busy_at_work)
    × (lookup text_discrete id_a (go removes 0 (go (timer alone 0) 0 busy_at_work)).entries ≡ none)
unfolding lookup text_discrete
go_timer-skipped_example =
    go_timer-skipped alone 0 0 waits_for_nine busy_at_work refl refl refl (λ e. cc)

-- What `DailyAt(9, 5, 7)` leaves.
abbrev state_of : Ending (Result ℕ × Scheduler) → Scheduler
state_of (ends (r, s)) = s
state_of panics = scheduler

abbrev daily : Scheduler
daily = state_of (daily_at 9 5 7 mail scheduler)

daily-registered : daily_at 9 5 7 mail scheduler ≡ ends (ok 0, daily)
unfolding daily_at add_cron add_parsed add_entry register new_id check_handler validate_name
    task_name_rule lookup insert text_discrete spaced decimal digits_before parse parse_field
    parse_parts parse_part part_of_base apply_part mark_steps
daily-registered = refl

daily_at-IsWaiting_example :
    (c : Cell) × (get_elem? (go (begins (172800 * nanoseconds)) 0 daily).cells 0 ≡ some c)
    × IsWaiting (shows utc 9 5 7) (172800 * nanoseconds) c
daily_at-IsWaiting_example =
    daily_at-IsWaiting 9 5 7 mail scheduler daily 0 (172800 * nanoseconds) (omega arith)
      (omega arith) (omega arith) daily-registered utc-IsHourly (omega arith)
