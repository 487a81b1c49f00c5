-- ===== src/Lib.antt =====
-- flynn-controller, the HTTP API that stores the applications of a Flynn cluster, and its
-- scheduler, which keeps the jobs of the cluster in step with the formations stored there.
--
-- The controller keeps applications, releases, artifacts and formations in Postgres. A formation
-- says how many processes of each type a release of an application runs. The scheduler reads the
-- running jobs of all hosts once (syncCluster), follows the stream of formations
-- (watchFormations) and the events of the hosts (watchHost), and starts or stops jobs until the
-- counts agree (rectify). One-off jobs are started, listed and stopped through the controller.
--
-- Prelude          Go's strings, ints, maps and `==`, and the lemmas on them that all parts share
-- Types            types/types.go, and the structs of other packages that the code reads
-- Strings          what is used of Go's strings package, with its laws
-- Utils            utils/utils.go: FormatEnv, DockerImage, JobConfig
-- Http             what a handler answers
-- Decimal          strconv.Itoa and strconv.Atoi at 64 bits, used by formation.go
-- Sql              db.go: the answers of statements, rowErrFixer.Scan, cleanUUID, transactions, and
--                  the loop over rows that the List methods share
-- Statements       db.go: the cache of prepared statements, as steps of calls that interleave;
--                  Statements.Calls has Query, QueryRow and Exec over it
-- Ids              utils/uuid.go: UUID; app.go: idPattern
-- Releases         release.go
-- Artifacts        artifact.go
-- Keys             key.go
-- Providers        provider.go
-- Resources        resource.go; Resources.Handlers has the handlers of resources of controller.go
-- Crud             crud.go, over a repository that Crud.Stores fills as appHandler does
-- FormationRepo    formation.go: procsHstore, scanFormation, Add, Get, List, Remove; in its children
--                  publish and expandFormation (Publishing), sendUpdatedSince (Updated), what the
--                  trigger of schema.go notifies (Notifying), and Subscribe, Unsubscribe and
--                  startListener as steps that interleave (Subscriptions)
-- Handlers         controller.go: the handlers of formations and of an application's release
-- Auth             controller.go: parseBasicAuth and rpcMuxHandler
-- Jobs             jobs.go: jobList, parseJobID, connectHostMiddleware, killJob; Jobs.Run is
--                  runJob, Jobs.Log is jobLog
-- Routes           routes.go
-- Apps             app.go: AppRepo.Add, its name pattern and the default route; Apps.Stored has the
--                  other methods of AppRepo
-- Rpc              rpc.go: the goroutine of StreamFormations, as steps
-- Routing          controller.go: the table of routes of appHandler, with those that crud.go adds;
--                  Routing.Injecting has the values that appHandler maps, and what the functions
--                  of each route take
-- Hijack           utils/hijack.go
-- Client           client/client.go: the requests of its methods, and rawReq; Client.Connecting has
--                  NewClient, NewClientWithPin, Close, StreamFormations and RunJobAttached
-- Scheduler        scheduler/main.go; Scheduler.Method has the methods that run under a formation's
--                  lock, Scheduler.Context the loops and goroutines, Scheduler.Sync syncCluster,
--                  and Scheduler.Steps the interleavings of all of them
-- Startup          the main functions of controller.go and scheduler/main.go
-- Deploying        the way of a formation from formation.go to the jobs of scheduler/main.go
-- Tests            runs on small inputs
--
-- A function keeps the name of the Go function in lower case with underscores. Go's maps are
-- association lists: a list stands for a map in one order of iteration, and the theorems hold for
-- every list, so for every order. Where a key must stand once this is a hypothesis (`IsUnique`).
-- An int is an integer without bound, but for Decimal, whose theorems ask for one that fits 64
-- bits. Pointers that are shared (the formations of the scheduler) are addresses in a heap.
--
-- Code outside of the repository is an argument: the SQL statements (`FormationRepo.Statements`,
-- with what Postgres documents of them as `IsTable`), the cluster client (`Jobs.Cluster`,
-- `Scheduler.State.Services`), url.Parse, the decoder of base64, and the reads that one
-- repository makes in another. Postgres prints identifiers in lower case, however they are given:
-- where a theorem speaks of a row that is read back, the identifiers given are of digits, letters in
-- lower case and dashes (`Sql.IsSimple`), as those that UUID makes are. A run-time panic is an
-- outcome (`Outcome`), so that a theorem says when there is none. All loops are structural; only
-- `digits` has fuel, and the number itself plus one is enough for it (`Decimal.RoundTrip`).
--
-- A transaction is two views of the world: what is committed and what the transaction works on.
-- `Sql.Transactions.IsTransaction` says what Postgres documents of them while no other transaction
-- interferes, and the hypotheses named `IsTable`, `IsStore`, `IsNaming` or `Keeps` what a statement
-- that answers a row has written or found. The encoder of JSON, the ssh package, the resource server
-- and the random bytes are arguments, too.
--
-- A goroutine of the scheduler is a task in a queue, and a method that holds the lock of its
-- formation is one step. The goroutines that syncCluster starts run rectify without that lock; they
-- are taken as one step, too. syncCluster runs before the loops, and is the start. Each goroutine of
-- the queue returns, for its loops are structural.
--
-- Not modelled: martini's router, of which `Routing.IsRouter` says what it documents, and the
-- recovery and logging around it; the tables of schema.go, which are SQL text; the leader election,
-- which is in discoverd; rpcHandler, which hands the connection to rpcplus; and the channels that carry
-- formations from a Subscribe call to the stream, for which the order of sends stands. The rest of
-- schema.go and the interfaces of handlers have no behaviour of their own.
pub mod Prelude
pub mod Types
pub mod Strings
pub mod Utils
pub mod Http
pub mod Decimal
pub mod Sql
pub mod Ids
pub mod Releases
pub mod Artifacts
pub mod Keys
pub mod Providers
pub mod Resources
pub mod Crud
pub mod Statements
pub mod FormationRepo
pub mod Handlers
pub mod Auth
pub mod Jobs
pub mod Routes
pub mod Apps
pub mod Rpc
pub mod Routing
pub mod Hijack
pub mod Client
pub mod Scheduler
pub mod Deploying
pub mod Startup
mod Tests
