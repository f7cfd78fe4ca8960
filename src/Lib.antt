-- ===== src/Lib.antt =====
-- A model of RocksDB-Wrapper, a program that runs a workload against RocksDB with chosen options and,
-- as an event listener, shapes RocksDB's levels into a fluid LSM tree.
--
-- The parts, in the order in which a run uses them:
--   Env       include/db_env.h, src/db_env.cc: the settings (class DBEnv), their defaults, derived
--             sizes, and GetInstance.
--   Args      include/parse_arguments.h: from the command line's flags to the settings.
--   Options   RocksDB's options, as far as the program sets them.
--   Config    include/config_options.h: from the settings to RocksDB's options (configOptions), in
--             parts (Config/Steps, Config/Tables) with the tables of its switch statements (Config/Cases).
--   Fluid     include/fluid_lsm.h, src/fluid_lsm.cc: the fluid LSM compactor. Tree has the runs and
--             lazy levels, Build is BuildStructure, Compact is everything from AddFilesToCompaction to
--             CompactFiles, System the histories of flushes and background compactions, Race the test and
--             the count of running compactions among threads, Print the tree as text, Debug the
--             operations again with all that they print. Sample is the data of their tests.
--   Buffer    include/buffer.h, src/buffer.cc: log files written through buffers, with the signal
--             handler that flushes them, also between two statements of a call (Buffer/Interrupt).
--   Workload  src/run_workload.cc: the workload's lines and operations, the loop over them
--             (Workload), the progress bar of src/utils.cc (Workload/Progress), and the whole of
--             runWorkload around the loop (Workload/Finish).
--   Listener  include/event_listners.h, src/event_listners.cc: waiting for compactions to finish, and
--             the prints of the callbacks (Listener/Profile).
--   Clock     src/aux_time.cc: clock readings and their differences.
--   Program   src/working_version.cc: main, which puts Env, Args, Config and Workload together.
--   Report    src/utils.cc: the reports that are written to the log.
--   Stats     include/stats.h, src/stats.cc: the statistics object and its report.
--   Base      shared tests, lists, integers and texts.
-- A parsed command line gives settings, Config takes these settings to options, and the compactor gets
-- options and the tree's shape when it is made. The compactor's state is the lazy levels, the counter
-- of running compactions and the queue of scheduled tasks; a method is a function on that state, with
-- `none` for an access outside a vector. The runner's loop gives the run or the way in which it
-- stopped: a failed assertion, a division by zero, or a line without an operation. A flush and an
-- insertion into a buffer are sequences of statements, which a signal can cut. The settings, buffers
-- and options are records with the source's fields.
--
-- Numbers: an int or a size is a natural number or an integer with the wrap-around of its type written
-- out. Floating point is an interface (Fluid/Double) with the laws that hold for whole numbers below
-- 2 ^ 53; they are hypotheses of the theorems that need them. Loops over lists are structural
-- recursion; the pick loop counts down from the largest occupied level, and the loop of
-- ScheduleCompaction runs K + 1 rounds, as in the source, so no fuel is involved. The decimal digits of
-- a number n have n + 1 as fuel, which is at least their number.
--
-- Parameters: RocksDB (its metadata, CompactFiles, CreateFromUri and its environments), the argument
-- parser include/args.hxx, the clock, single precision and how a double prints, and the file system. Not
-- modelled: what runWorkload does only where PROFILE is defined, other than the report of LogTreeState,
-- and the getters of the compactor's parameters.
pub mod Base
pub mod Fluid
pub mod Buffer
pub mod Env
pub mod Args
pub mod Options
pub mod Config
pub mod Report
pub mod Workload
pub mod Clock
pub mod Listener
pub mod Stats
pub mod Program
