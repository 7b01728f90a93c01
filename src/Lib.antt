-- ===== src/Lib.antt =====
-- A model of the core of valmin, a panel that runs game servers in containers, and the theorems
-- that make it correct. Paths below are from the repository's root.
--
-- The panel keeps its state in a database. Requests are first decided by the authorization
-- function (internal/authz); long operations then run as jobs of the engine (internal/jobs), each
-- of which claims its locks and its row in one transaction (internal/store/jobs.go), moves the
-- instance along the edges of a table of states (internal/instance/state.go), and gives the locks
-- back when it finishes. The scheduler asks for jobs at the times of its schedules
-- (internal/scheduler), and may hold one until the players of a server have left. Mods are installed from the dependency closure that the resolver computes over the cached index of
-- packages (internal/mods/resolver), whose versions internal/mods/semver orders; the installer then
-- decides on each file (internal/mods/installer). Backups are kept by one retention rule here and
-- by another at a remote destination (internal/backup). New instances take the first free pair of
-- ports (internal/instance/ports.go). Clients of the event stream name what they listen to by topics
-- (internal/ws/topic.go); a hub holds their connections, each with a queue whose oldest frames may be
-- dropped and one whose frames may not (internal/ws). A scan evaluates which alert conditions are
-- true (internal/alerts), makes the stored conditions match (internal/store/alerts.go), and announces
-- each edge to the rules that cover it (internal/notify/delivery/alerts.go).
--
-- Modules, and the code that each is about:
--   Shared     text as bytes, the Go map and slice operations that the code uses (strings.Split,
--              strings.Cut, strconv.Atoi, sort.Strings, slices.Compact), and lemmas on them
--   Semver     internal/mods/semver: Parse, ParseVersion, Greater, Compare
--   Resolver   internal/mods/resolver: ParseDependency, walk, expand and what they call; a method
--              of resolveState is the function of its name with the state handed on, and helpers
--              named after the parts of a body (walk_held, expand_known) are its branches
--   Resolver.Closing    the loops of Resolve over the requests, reachable and closure
--   Resolver.Conflicts  Check
--   Kinds      internal/jobs/kind.go: the register of job kinds, ByName, the lock keys
--   Lifecycle  internal/instance/state.go, with the statements of internal/store/instances.go
--              behind SetState, HoldStateTx, FinishStartTx and FinishProvisioningTx
--   Retention  internal/backup/prune.go: Prune; internal/backup/remotecopy/retention.go: the loop of
--              markInstanceRetention, PrunedOnArrival
--   Authz      internal/authz: the actions, granted, decide, Can, Allowed, VisibleInstances
--   Jobs       internal/store/jobs.go: ClaimJobWithLocks, RenewJobLease, UpdateJobProgress,
--              UpdateJobCheckpoint, FinishJob, CancelQueuedJob, RequestJobCancel, LockHolder,
--              HeldLockKeys, StaleJobs
--   Engine     internal/jobs/engine.go: Submit, checkDiskRoom, claimHook, PrependFinish, hooked and
--              the end of run; internal/jobs/cancel.go: Cancel; on the transactions of Jobs
--   Engine.Runs   the calls of the engine on the tables, in any order
--   Scheduler  internal/store/schedules.go: DueSchedules, ScheduleByID, MarkScheduleRun,
--              DeferSchedule; internal/scheduler/scheduler.go: the memory of warnings and sends
--   Scheduler.Calendar  NextRun
--   Scheduler.Submitting  internal/scheduler/submit.go: Enqueue, and RecordSkippedRun
--   Scheduler.Tick      Tick, fire, stillDue, hold, finalWarning
--   Ports      internal/instance/ports.go: Allocate, publishedPorts, freeOn
--   Installer  internal/mods/installer/diff.go: CheckDest, Diff, ApplyUnowned, Manifest;
--              internal/mods/installer/plan.go: checkNoDuplicateDest
--   Topics     internal/ws/topic.go: Parse, String, Class, Action
--   Hub        internal/ws/conn.go: the queues of one connection: close, pushLossless, push,
--              deliverRaw, deliver
--   Hub.Writer       writeLoop, writeFrame and gapBefore
--   Hub.Subscribing  internal/ws/subscribe.go: subscribe, cut at its authorization into begin and
--              register, unsubscribe, recheck, dropInstance, sendLive, command
--   Hub.Registry     internal/ws/hub.go: add, remove, SessionRevoked, UserRevoked, Close
--   Hub.Steps        the steps of a connection, as its reader, its writer, the sources and the hub
--              take them in any order
--   Alerts     internal/alerts/condition.go, rules.go: the kinds, Defaults, RuleResolver, Matches,
--              Quiet
--   Alerts.Evaluate    internal/alerts/evaluate.go: Evaluate
--   Alerts.Conditions  internal/store/alerts.go: ReconcileConditions
--   Alerts.Dispatch    internal/store/alerts.go: MarkNotified, ResolvedUnannounced;
--              internal/notify/delivery/alerts.go: DispatchAlerts
--
-- How the code is written here. Strings are lists of bytes. A map is an association list whose
-- newest entry counts, a set the list of its keys. A second result that is false, and a nil
-- pointer, are none; errors are values of a type of the component's own. A transaction is a
-- function on the rows of its tables, and a rollback returns the rows that it was given. What a
-- component calls elsewhere is a parameter: the index of packages, the lookups of grants, the
-- hooks of a claim and a finish, which are functions on the tables other than those of the jobs,
-- the container engine, cron expressions and time zones, the binds of the network, the looks of the
-- installer at the disk and its hashes of files. Failures of the database itself are left out.
--
-- The recursion of the resolver, through walk and expand and in visit, is on fuel. One more
-- than there are packages in the index is enough, since the cycle check and the set of packages
-- seen keep a path from naming a package twice. The search for a port makes the thousand turns of the
-- source. Every other loop is over a list.
--
-- The theorems on the resolver's closure ask of the versions that requests, dependencies and
-- installed packages name that they parse, hold no at sign, which separates a name from its
-- version in a key, and spell no number in two ways, since the order of versions is none
-- where they do.
--
-- A call of the hub that waits for room in a queue has no result until there is room. Which case Go
-- picks where a select has two, and what comes in between two selects, are arguments.
--
-- Not modelled: logging, the HTTP interface, sockets and timers, the container runtime,
-- cryptography, the runners of the jobs and the recovery of those that a crash has left, the
-- submissions that the scheduler's Enqueue is given, the texts and the sending of notifications,
-- the installer's copying of files, the configuration files of mods, and the web interface.
pub mod Shared
pub mod Semver
pub mod Resolver
pub mod Kinds
pub mod Lifecycle
pub mod Retention
pub mod Authz
pub mod Jobs
pub mod Ports
pub mod Topics
pub mod Hub
pub mod Alerts
pub mod Engine
pub mod Scheduler
pub mod Installer
