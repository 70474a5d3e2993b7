-- ===== src/Lib.antt =====
-- A verification library for rbackup2, a client that runs `restic` backups on schedules which a
-- PostgreSQL database holds.
--
-- The program. `run` (src/main.rs) reads the local configuration, connects to the database,
-- registers the device, loads the remote configuration, and either runs one backup for
-- `--test-backup` or starts two tasks. The scheduler (src/scheduler.rs) holds the schedules, checks
-- every minute which ones are due, sends their jobs over a channel and stores their next runs. The
-- executor (src/scheduler/executor.rs) takes the jobs from the channel, limits how many run for a
-- device, and runs each as a backup (src/backup.rs): a row in `runs`, a `restic` process, its output
-- read, and the row updated with the result.
--
-- The model. Code that changes state is a function from a state to a result and the state after it
-- (`Stateful` in Database/World), with `?` as the bind of a do block and `match` on a result as
-- `attempt`. The state is the tables, counters of the queries and of the clock readings, and the
-- processes that were run. Everything the code calls and does not implement is a field of one
-- record, `Externals` (External): the errors of sqlx, JSON, the cron crate, the clock, PATH, the
-- process, and the fate of each query, which is answered, fails, or takes effect while its answer is
-- lost. Theorems hold for every choice of these unless a hypothesis says otherwise. The fates are
-- indexed by the number of the query, so that a theorem speaks of every pattern of failures.
--
-- The files:
--   Base               names that all share: lists, Boolean tests, decidable equality, integers
--                      over the native numbers, text, HashMap as an association list, decimals
--   Error              src/error.rs: error types, their texts, the result type
--   Models             src/db/models.rs: the rows and their methods
--   Database           src/db/queries.rs: World has the state and a query, Reads and Writes the
--                      statements as functions on the tables, Queries and Runs what they leave
--   Config             Local is src/config/local.rs; Remote and Loading are src/config/remote.rs
--   Backup             Output is src/backup/output.rs, Restic and Repository are
--                      src/backup/restic.rs, Execute is src/backup.rs
--   Scheduler          ScheduleCalc and MissedRuns are the modules of src/scheduler/ of these names,
--                      Service is src/scheduler.rs with its loop in Service/Ticking, Executor is
--                      src/scheduler/executor.rs, once as a function that runs one job and once as a
--                      step relation of the locks that many tasks take
--   Client             src/main.rs up to the start of the two tasks; Startup has the configuration
--                      file, the log and the connection
--   Serving            what runs from there on: the scheduler and the tasks of the executor over one
--                      database. A task is cut at its queries, its process and its locks (`advance`),
--                      and `Move` interleaves the tasks, the channel and the scheduler in any order
--   Samples            concrete values for the tests
-- A function of the source has the same name here. Where one is cut into parts, `record_output`
-- for instance, the comment above the part says where it begins.
--
-- Bounds. A time is an integer number of nanoseconds, an `i32` or `i64` column an integer; the
-- range is a hypothesis where it matters (`CountFits` in Scheduler/MissedRuns). Texts of settings
-- are read as `u64` with its overflow, and `usize` is taken to have 64 bits. The sequence of run ids
-- ends at 2^31. Recursion is structural but for functions on fuel: the printing of a number, where
-- each round divides it by ten and the fuel is above it; `runs_up_to_now` in
-- Scheduler/MissedRuns/Counting, which steps by whole seconds and is given the seconds that passed;
-- `advance_times` in Serving/Alone, for which seven steps are enough, since a task has seven phases;
-- and `tick_times` in Scheduler/Service/Ticking, the endless loop of the scheduler up to a number of
-- ticks, about which theorems hold for every number or for one that is shown to exist.
--
-- Steps that are taken together. A call of the scheduler is one step of Serving although it makes
-- several queries: it writes only the schedules, and the tasks of the executor neither read nor write
-- these (Serving/Frame). A query sees the tables of one moment. The clock and the fates of queries are
-- counted over the whole program, in the order of the steps.
--
-- Not modelled: what is only logged or printed; the parsing of the arguments; the capacity of the
-- channel, which only delays the sender; the rounding of times to microseconds by PostgreSQL; overflow
-- of times in chrono, which panics; a `restic` process that never ends (`Externals.run` is a total
-- function, where the source would wait without limit, and the task with it); the environment that
-- `restic` inherits from the program, on top of which `Command` sets its variables; the file system,
-- so neither what `restic` does there nor the log file, which `setup_logging` creates before the
-- program connects. The end of the program by a signal needs no step of its own: it
-- ends in whatever state it has reached.
pub mod Base
pub mod Error
pub mod Models
pub mod Config
pub mod Backup
pub mod External
pub mod Database
pub mod Scheduler
pub mod Client
pub mod Serving
pub mod Samples
