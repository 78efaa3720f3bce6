-- ===== src/Lib.antt =====
-- jobx: an in-process job dispatcher.
--
-- The program takes jobs by name (`Submit…`), keeps those that are due in a bounded ready queue and
-- the others on a heap ordered by their run time, and runs them by a pool of workers, with retries.
-- A conflict policy decides what happens to a job while another one of its name is in flight; a
-- status table answers `JobStatus`; a store that the user supplies keeps the unfinished jobs.
--
-- Parts and files:
-- - Prelude, Prelude/*: shared names, Boolean tests, lists, and Go maps as association lists.
-- - Text, Clock: strings; `time.Time`, `time.Duration` and `int`.
-- - Errors: internal/core/errors.go.
-- - Job, Options, Metrics: internal/core/job.go, options.go, event.go and store.go. Job/Valid is about
--   what the submission options let through.
-- - Logs: what goes to the logger and to the trace hook (internal/core/trace.go).
-- - ReadyQueue: internal/core/ready_queue.go. ReadyQueue/Bounds is about the capacity, and
--   ReadyQueue/Order about the order of the entries.
-- - Heap, Heap/*: container/heap over `delayHeap` of internal/core/dispatcher.go; Heap/Bags is about
--   the heap as a bag of entries.
-- - Status, InFlight: the status table and the in-flight sets of internal/core/dispatcher.go
--   (`markStatus`, `JobStatus`; `applyConflict`, `addInFlightLocked`, `releaseInFlight`).
-- - Dispatcher/State and Dispatcher/Steps: the state and its small operations.
--   Dispatcher/Submit: `SubmitWithOptions` and what it calls; Submit/Rollback, by way of
--   Submit/Frame and Submit/Settles, is about a call that fails, Submit/Accepted about one that
--   succeeds, Submit/Queues and Submit/Served about the way of a job from there to a
--   worker, Submit/Refused about one of a name that is in flight.
--   Dispatcher/Cancel: `Cancel`.
--   Dispatcher/Delay: `popDue`, `drainDelayed`, `delayLoop`; Delay/Due is about what becomes due,
--   Delay/Ends about the shutdown. Dispatcher/Restore: `Restore`, with Restore/Later about jobs
--   that are not due and Restore/Stranded about a full queue.
--   Dispatcher/Lifecycle: `NewDispatcher`, `Handle`, `Shutdown`, with Lifecycle/Configured,
--   Lifecycle/Handlers and Lifecycle/Shutdown about each.
--   Dispatcher/Run: internal/core/worker.go, with `runEntry` and `scheduleRetry`;
--   Run/Ends is about how an execution ends, Run/Retry about retries, Run/Traces about the trace hook.
--   Dispatcher/Pool: the dispatcher with its workers and the calls on it, as steps of several
--   goroutines in any order; Pool/Counts, Pool/Adds and Pool/Keeps are about where the entries
--   stand, Pool/Once about each job being in one place, Pool/Marks about cancelled jobs, Pool/Gauge
--   about the gauge of the running jobs, Pool/Bounds about the ready queue. Pool/Submits,
--   Pool/Works and Pool/Delays, by way of Pool/Paths, are about the calls as runs of these steps.
-- - Cron: cron/cron.go, its parser and what `Next` uses of its fields. Cron/Strings has what it
--   uses of Go's strings and strconv; Cron/Steps is about the inner loop of `parseField`,
--   Cron/Ranges and Cron/Whole about what is accepted, Cron/Search about `nextInSet`.
--   Cron/Calendar has what it uses of Go's time, and Calendar/Months the laws of the months.
--   Cron/Next: `Next` and `NextN`; Next/Jumps and Next/Days are about the jumps of a round,
--   Next/Least about the loop, Next/Chains about `NextN`, Next/HalfHours about locations that are
--   not a whole number of hours off, Next/Accepts about any location, Next/Gaps about one whose
--   clock goes forward at midnight.
-- - Scheduler: internal/core/scheduler.go, its entries. Scheduler/Rounds: the goroutines of the
--   entries, `Stop` and `Shutdown`; Rounds/Keeps is about what a goroutine leaves alone,
--   Rounds/Stops about the closing of channels, Rounds/Begins about the start of a goroutine and
--   Rounds/Ends about its end, Rounds/Halts about `Stop`,
--   Rounds/Skipped about `fire` while a job of the name is in flight. Scheduler/System: the
--   interleavings, with System/Closes and System/Shutdowns about them. Scheduler/Wrappers: `Cron`
--   and the calls that write an expression for it; Wrappers/Decimals and Wrappers/Words are about
--   the text, Wrappers/Fields about its fields, Wrappers/Times about the whole, and
--   Wrappers/Firsts about what the goroutine makes of it.
-- - Tests: the theorems at concrete inputs.
--
-- State. `Dispatcher` is the struct of that name; a call takes it and gives a reply with the new one.
-- What a critical section does is one function. Where the code waits (`push`, `pop`), a list of
-- `Wake`s says what the other goroutines do to the shared state meanwhile, each an arbitrary
-- function, and which case of the `select` fires; a call that still waits at the end of the list
-- gives `blocks`. Where a call pushes an entry and goes on, or has reported its status (`Meanwhile`),
-- and while a handler runs (`others`), the other goroutines may likewise do anything to the state.
-- Elsewhere the steps of a call are taken to follow each other without interference; the pool, below,
-- has the interleavings. A Go map is an association list, and
-- a range over it follows the list. The scheduler is a store of cells, one for each
-- `*scheduleEntry`, and a map of their indices; a cell also holds what the goroutine of its entry
-- captured and the point that it has reached. The scheduler calls `Submit` of the dispatcher that it
-- holds. A `Step` is what one goroutine does at a time. So is a `Move` of the pool, whose state is the
-- dispatcher, the entries that a call has built or taken off the heap and not placed yet, and where
-- each worker stands in `runEntry`, where a check for a cancellation and what follows it are steps of
-- their own; a step that touches none of these is any change at all. `Restore`
-- is no step of the pool, since the ids that it brings back are those of an earlier process.
--
-- Bounds. An instant is the number of nanoseconds since the zero value of `time.Time`; earlier ones
-- are not represented. A duration and an `int` are 64-bit words in two's complement. `Attempt` is
-- a natural number: it starts at 0 and is only counted up. The loops of container/heap have
-- fuel: `up` from `j` makes at most `j` swaps, since the parent is smaller, and `down` at most
-- as many as the heap has entries, since the child is greater. `drainDelayed` has the length of
-- the heap as its fuel. The inner loop of `parseField` has `hi + 1` rounds, since its counter grows;
-- a panic of the parser is a result of its own. The walk from a day to its month has a round for
-- each day, since no month is empty, and the loop of `Next` a round for each second up to the limit
-- of the scan: in a location of a fixed offset each jump goes forward by a second at least, and
-- where the rounds run out the result says so. A location has an offset at each instant;
-- `time.Date` finds an instant by the two lookups of Go's implementation. `%d` writes at most 20
-- digits.
--
-- Outside the model: validx, the random source of idgenx, the clock, the store and the handlers are
-- fields of the state. The calls of the metric callbacks, of the loggers and of the trace hook are
-- lists in the state, the newest first; how a logger formats them is left out. So are the contexts
-- of the calls, except that a cancelled context ends a wait and that the cancel functions of running
-- jobs are recorded when they are called. `Stop` and `Shutdown` of the scheduler are modelled up to
-- the point where they wait; what they wait for is `is_done` of the cells. api.go and the examples are not
-- modelled.
pub mod Prelude
pub mod Text
pub mod Errors
pub mod Clock
pub mod Job
pub mod Options
pub mod ReadyQueue
pub mod Heap
pub mod Status
pub mod InFlight
pub mod Metrics
pub mod Logs
pub mod Dispatcher
pub mod Tests
pub mod Cron
pub mod Scheduler
