-- ===== src/Lib.antt =====
-- logstat: a daemon that follows a log file, counts the lines in which configured words ("actions")
-- occur, and adds the counts to counters in Redis.
--
-- The parts of the program and how they interact. cmd/logstat reads the configuration
-- (internal/config), takes a lock (internal/lockfile) and runs the daemon (internal/daemon). The
-- daemon feeds each line of the log to the counter (internal/counter), which raises a buffered total
-- for each action that the line has. On a timer it flushes: it drains the buffer and writes each total
-- to Redis through the store (internal/store), and gives back to the buffer what could not be written.
-- On a schedule it flushes and zeroes the counters. internal/metrics shows the totals to a Prometheus
-- server; internal/logging writes the daemon's own log.
--
-- Which file models which part:
--   * Counter: internal/counter/counter.go, one function per method (New is new, ProcessLine is
--     process_line, Drain is drain, Restore is restore, ...). The mutex makes a method one step.
--   * Config: internal/config/config.go. The records and Default in Config, Metrics.ValidatePath in
--     Config/Route, Metrics.validate in Config/Listen, Overlaps in Config/Overlaps, Config.Validate in
--     Config/Validate. strings.ToLower and cron.ParseStandard are parameters.
--   * Store: internal/store/store.go. The texts of keys and values in Store/Keys; each operation in
--     Store. go-redis and the server behind it are the parameter Client (Store/Redis), and Books
--     are books on what the writes leave under the keys. Store/Ledger has books of every client, which
--     enter the writes that are answered. Store/Toy is a small server, and Store/Toy/Steady one that is
--     always reached. Available (Store/Available) is a Redis that answers, an increment where it
--     does not overflow.
--   * Daemon: internal/daemon/daemon.go. World is the daemon's state with the server; Flush,
--     flushAction, ensureInit and refreshTTL are in Daemon/Flush, Reset is in Daemon/Reset,
--     noteRedisError and noteRedisOK are in Daemon. The select loop of Run with consume and drain is
--     in Daemon/Run, as a sequence of events. The lines that the other goroutine counts while a flush
--     runs are an argument of the flush. New, startMetrics, MetricsAddr, the tailer's messages and Run
--     from its first line to its last are in Daemon/Start, over what the calls of other packages
--     return (Outside). Daemon/Machine has the abstract machine of one action.
--   * Metrics: internal/metrics. The collector and its descriptions in Metrics (collector.go), a scrape
--     in Metrics/Collect, the texts of format.go in Metrics/Format, the status page's data (status.go)
--     in Metrics/Status, and NewServer with its routes, Serve and Shutdown (server.go) in
--     Metrics/Server. The part of the store that the collector reads is the parameter Reader, which
--     Metrics/OfStore fills with Store.
--   * Lockfile: internal/lockfile/lockfile.go. Acquire is acquire and Release is release.
--   * Logging: internal/logging/logging.go. ParseLevel, levelName and Enabled in Logging/Level, the
--     handler in Logging/Record, the output with New, Reopen and Close in Logging/Output.
--   * Cli: cmd/logstat/main.go. The flags in Cli/Flags, setup in Cli/Setup, cmdClear in Cli/Clear, cmdRun
--     and run in Cli/Run. Config/Load has config.Parse, Load and CheckPaths.
--     What a command logs is a list of messages there, which is not written through the log's output.
--   * Os is the parameter for the system's files, locks and standard error, which Lockfile, Logging,
--     Config/Load and Cli share; FilesDocumented and LocksDocumented are what its manual says.
--     Lockfile/Toy is a system that keeps to it.
--   * Text, Int64 and Dict are Go's string, int64 and map, with the functions of the standard library
--     that the program calls; Prelude holds the names and helpers that all files share.
--
-- Bounds. An int64 is the number of its bits, below 2 ^ 64, and each addition wraps around. All loops
-- of the program run over a list, or once for each signal, and are structural recursion: no fuel. Only the
-- reader in Logging/ReadBack, which is no part of the program, takes the length of the text as fuel:
-- each attribute is at least one unit long.
--
-- Conditions that several theorems share. A total is one in books (Store/Redis). Books may
-- be the keys of a Redis that expires none meanwhile, whichever of the failed calls it has carried out.
-- A ledger is books that enter an increment exactly if its write is answered, and each client has one
-- (Store/Ledger.tracked): so what holds of the total in a ledger holds of every Redis, and speaks of
-- what Redis has answered to, not of a write that timed out and was carried out, or of a key that has
-- expired since. Documented is what Redis promises of its keys.
--
-- Not modelled: the tail library, the ticker and the scheduler, of which Daemon.Run sees whether they
-- start and the events; the HTTP server and the HTML template of the exporter; YAML decoding; and what
-- the commands print.
-- Contexts and deadlines show as failed replies of the client only, and the texts of error messages
-- are values without their wording.
pub mod Prelude
pub mod Text
pub mod Int64
pub mod Dict
pub mod Counter
pub mod Config
pub mod Store
pub mod Daemon
pub mod Cli
pub mod Lockfile
pub mod Logging
pub mod Metrics
pub mod Os
