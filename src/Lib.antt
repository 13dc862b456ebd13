-- ===== src/Lib.antt =====
-- Q-Scheduler: the scheduling core of the runner crate.
--
-- The service accepts tasks and sessions, queues them per machine and user, and hands them to a
-- backend. `Core` (runner/src/core.rs) holds all state under one lock; each machine has a launcher
-- (runner/src/launcher.rs) that takes the lock once for each event.
--
-- Which file models what:
--   Base            maps (a `HashMap` is an association list, whose order stands for the
--                   unspecified order of iteration), tests, calls that may panic
--   Error           runner/src/error.rs: the errors, and `crate::Result`
--   User            runner/src/user.rs: `UserMap`; User/Counts and User/Idle have its laws
--   Project         runner/src/project.rs: the budget of a project
--   Session         runner/src/session.rs: session states and `SessionMap`
--   Task            runner/src/task.rs: task states and `TaskMap`
--   Suspension      runner/src/suspension.rs: its types and their database texts
--   Machine         runner/src/machine.rs: a machine's state; Machine/Queue and Machine/Removal
--                   its queues, Machine/FairShare the users' usage, Machine/Registry `MachineMap`
--   Core            runner/src/core.rs: the state; Core/Checks what is checked before work is
--                   accepted, Core/Submit adding work, Core/Purge taking a machine out, Core/Evict
--                   a round of eviction; Core/Counters has the invariant
--   Launcher        runner/src/launcher.rs: the state of `launcher_main`; Launcher/Estimate has
--                   `RunningTask`, Launcher/Check `check_running_tasks`, Launcher/Close the end of
--                   a session, Launcher/Fail `FailContext`, Launcher/Message the messages of the
--                   backend (runner/src/backend.rs), Launcher/Requests cancellation and
--                   suspension, Launcher/Loop the event, picking and submitting of one round
--   Iqm             runner/src/backend_iqm.rs: the jobs at an IQM server; Iqm/Poll has what an answer
--                   tells of a job, Iqm/Monitor the loop `iqm_main`, Iqm/Backend the requests
--   Core/Restore    runner/src/core.rs: `restore`, from the rows of runner/src/db.rs in Core/Rows
--   Core/Infos      what the API shows of work in memory: `TaskInfo`, `SessionInfo` and `Core`'s
--                   functions for them
--   Db              runner/src/db.rs: the statements that requests wait for, on tables; Db/Updates
--                   has those that launchers write, Db/Loading what a restart reads, Db/Machines,
--                   Db/Notifiers and Db/Infos the ones their requests use
--   Reactor         runner/src/reactor.rs: Reactor/Suspend suspending and resuming machines,
--                   Reactor/Work submitting and cancelling, Reactor/Projects the cache of projects,
--                   Reactor/Machines adding, updating and removing machines, Reactor/Notifiers the
--                   notifiers, Reactor/Infos looking up tasks and sessions
--   Callback        runner/src/callback.rs: the notifiers; Config runner/src/config.rs
--   Service         service/src: the admin token and the status codes of errors
--   Examples        concrete states
--
-- A method that changes its object returns the new one. Ids are numbers. Times and durations are
-- numbers of nanoseconds without overflow; a call of `Instant::now()` or `Utc::now()` is an
-- argument, one value for all calls of one operation. `u32` and `u64` counters wrap as in a
-- release build. A panic (`unwrap`, `expect`, `assert`, `unreachable`) is `none`; an error is a
-- `Result`. The usage of a user, an `f64`, is of an abstract type whose operations are the
-- parameter `Machine.F64`, and whose comparison is a total order where a theorem says so; its
-- overflow to infinity is not modelled.
--
-- What a launcher asks of the backend, of the database and of the notifiers is a list in its
-- state, in order. `pick_task` and the loop of submissions are on fuel: each of their rounds takes
-- an item from the machine's queues, so one more than the queued items is enough. The loops over
-- the queue of a session have as many rounds as it has tasks.
--
-- A request of the API takes the lock of the core more than once: the core at each of its locks is
-- an argument. For the long requests on machines, which wait several times, the record
-- `Reactor.Machines.Others` says what others do to the core at each wait: any function, of which a
-- theorem says what it has to keep. Whether the database is reached is an input of each statement; a
-- statement is what its SQL says of the rows. A column of a timestamp has whole microseconds, one of
-- a duration whole milliseconds. What a launcher still writes while it is stopped is an input of a
-- removal. The loop of a notifier's attempts has fuel for 16, its largest number.
--
-- Not modelled: the timers and channels, re-attaching of restored tasks by a launcher, fetching
-- texts and streams from a backend, and the test backend, all of which are input and output; the
-- lists and debug snapshots for the API, which change nothing; creating users; the decoding of HTTP
-- requests and the command line, which are calls of libraries.
mod Base
pub mod Error
pub mod User
pub mod Project
pub mod Session
pub mod Task
pub mod Suspension
pub mod Machine
pub mod Core
pub mod Launcher
pub mod Iqm
pub mod Db
pub mod Callback
pub mod Config
pub mod Service
pub mod Reactor
mod Examples
