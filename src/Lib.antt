-- ===== src/Lib.antt =====
-- A model of the distributed job queue. The program is a set of Node processes that share Redis (the
-- live queues) and Postgres (the record of every job): an HTTP server that takes jobs, workers that
-- claim and run them, a reaper that takes jobs back from crashed workers, and a scheduler that
-- enqueues recurring jobs.
--
-- How the code is translated. An async function is a Program (Store/Program): a tree of the commands
-- that it sends to Redis and Postgres (Store/Command), each with what the function does for every
-- answer, refusals included; `await` rejects where the service refuses, and try/catch and try/finally
-- are functions on these trees. The two services are not code of this repository: they are a
-- parameter, a Server that may answer anything (Store/Server). Where a theorem relies on what they
-- do, it says so by a hypothesis: IsReliable (a single client, each command as the documentation of
-- Redis and Postgres has it) or IsDocumented (any number of clients, of whose commands any may be
-- refused, or run with the answer lost). Store/View, with the tables in
-- Store/View/Rows, holds that documented behaviour: the `answer` and `effect` of each command. Store/System runs any number
-- of programs at once, one command at a time, and any of them may stop for good after any command: a
-- crash. Store/Protocol and Store/Protocol/Steady state what a program may send, whatever is
-- answered; Store/Triples and Store/Ensures how it ends. Store/Rows has laws of the tables,
-- Store/Runs of runs.
--
-- The parts, with paths from the root of the repository:
--   RedisKeys       packages/shared/src/redisKeys.js: the names of the keys; RedisKeys/Clashes.
--                   Elsewhere a key is a constructor of Store/Command
--   Payload, Job    packages/db/schema.sql as the code uses it, the envelope and the log messages
--   Backoff         packages/shared/src/backoff.js; Backoff/Bounds
--   RateLimit       packages/server/src/middleware/rateLimit.js (the Lua script); RateLimit/Budget
--   Queue           packages/server/src/lib/queue.js: enqueueJob is enqueue_job,
--                   promoteDueDelayedJobs is promote_due_delayed_jobs and so on; Queue/Stored,
--                   Queue/Enqueue, Queue/Dedupe, Queue/Expired, Queue/Promotion with
--                   Promotion/Line and Promotion/Loop; Queue/Listing for
--                   listJobs; Queue/Poller for the timer of packages/server/src/index.js;
--                   Queue/Stats for getQueueStats; Queue/Stats/Counts
--   Worker/Claim    packages/worker/src/claim.js; Worker/Claim/Order
--   Worker/Handlers packages/worker/src/handlers
--   Worker/Process  packages/worker/src/process.js; Worker/Process/Final,
--                   Worker/Process/Endings, Worker/Process/Outcomes,
--                   Worker/Process/Stuck, Worker/Process/Released
--   Worker/Lane     runLane and the registry entry of packages/worker/src/index.js;
--                   Worker/Lane/Survival, Worker/Lane/Draining
--   Worker/Shutdown packages/worker/src/shutdown.js; Worker/Shutdown/Deadline
--   Worker/Main     main and shutdown of packages/worker/src/index.js, all lanes and signals
--                   together, as a step relation; Worker/Main/Invariant, Worker/Main/Drained
--   Reaper          packages/reaper/src/index.js; Reaper/Recovery and Reaper/Lost for requeueOrphan
--   Routes          packages/server/src/routes/jobs.js and schedules.js: Routes/Response for what is
--                   sent, Routes/Jobs with Routes/Jobs/Cancel and Routes/Jobs/Retry,
--                   Routes/Schedules with Routes/Schedules/Delete; Routes/Schemas for their JSON
--                   schemas, Routes/Schemas/Requests for how the handlers read a body,
--                   Routes/Schemas/Reading and Routes/Schemas/Accepted
--   App             packages/server/src/app.js, with the hooks of packages/server/src/middleware and
--                   routes/queues.js: App/Auth, App/Health, App/Handlers, App/Budget
--   Daemon          start and shutdown of packages/reaper/src/index.js, packages/scheduler/src/index.js
--                   and packages/server/src/index.js; Daemon/Quiet
--   Gateway         packages/server/src/ws/gateway.js; Gateway/Fanout
--   Scheduler       packages/scheduler/src/index.js; Scheduler/Lock, Scheduler/Stored;
--                   Scheduler/Occurrences for isDue, Scheduler/Firing, Scheduler/Turns,
--                   Scheduler/Ticks and Scheduler/Once for what ticks do to a definition
--   Custody         the processes together: which of them may hold a job. Custody/Protocol says what
--                   a process may do with a job, Custody/Threads, Custody/Reaping and Custody/Firing
--                   that the code does no more, Custody/Invariant, Custody/Moves, Custody/Fewer and Custody/Steps
--                   what a step does to a job, and Custody/Reach puts them together
--   Audit           the audit log job_events, which every process that changes a status keeps:
--                   Audit/Enqueuing for the server, Audit/Working for the worker,
--                   Audit/Recovering for reaper and scheduler, Audit/Kept
--   Lifecycle       server, poller and worker together, in rounds: Lifecycle/States,
--                   Lifecycle/Steps, Lifecycle/Attempts, Lifecycle/Settling, Lifecycle/Life
--   Line            what enqueueing and claiming promise together, as three lines of jobs:
--                   Line/Lists, Line/Steps, Line/Refines
--   Dashboard       packages/dashboard/src: Dashboard/Feed is ws.js, with Feed/Bounds and
--                   Feed/Latest; Dashboard/Chart is components/ThroughputChart.jsx; Dashboard/Api is
--                   api.js; Dashboard/JobList, Dashboard/DeadLetters and Dashboard/JobDetail are
--                   JobList.jsx, DLQPage.jsx and JobDetail.jsx, with Pages below the first; Dashboard/SubmitForm is the form of App.jsx, with Twice below it;
--                   Dashboard/Shell is the page of App.jsx with the job it selects, and
--                   Shell/Selected and Shell/Opened below it; Dashboard/ApiKey is its field for the
--                   key, with ApiKey/Sent below it;
--                   Dashboard/QueueStats is QueueStats.jsx with the frame that the gateway sends, and
--                   Shown below it;
--                   Dashboard/Served is the server as they reach it, behind Fastify's parser of
--                   bodies; Dashboard/Wire is what api.js sends, and that parser before the server,
--                   with Refused below it
--   Samples         data for the tests
--
-- Numbers. Clock readings, random draws and drawn ids are arguments of the functions that read them.
-- Math.random() is a draw below 2^53, in units of 2^-53. The rate limiter's floating-point tokens are
-- counted in units of 1/60000, which makes its arithmetic exact, and
-- the failure rate in units of 1/10000; how the floating-point division and the percentage are rounded
-- are parameters, Quotient and Tenths. Ids and idempotency keys are only
-- compared for equality: numbers. Loops over a list that was read before are recursion on it. The
-- endless loop of a lane and the wait of a drain run over a list, of any length, of what their turns
-- read; a drain needs one poll more than its grace period has room for at 200 ms each.
--
-- Not modelled: configuration, logging, connection handling, what the dashboard draws, and the interval
-- of processJob that sends heartbeats (a heartbeat itself is Worker.Claim.heartbeat). Fastify's validator
-- is a parameter of Routes/Schemas, and its parser of bodies one of Dashboard/Wire; in App a request that
-- the validator refuses is a case of its own. Services are taken to have a row for each job that is
-- logged, as the foreign key of job_events wants it, and times to be within the range of Date.
-- The cron parser is a parameter; IsCron states what is taken of it. Time to live appears as keys that
-- may vanish at any step of a System, and in Queue/Dedupe as a deadline until which a key is kept. Custody leaves out the retry of a failed attempt and the
-- operator's retry, where the code pushes a job that it does not hold. Worker/Main sees of claimNextJob
-- and processJob only when and how they settle.
pub mod Base
pub mod Payload
pub mod Job
pub mod RedisKeys
pub mod Store
pub mod Audit
pub mod Backoff
pub mod RateLimit
pub mod Queue
pub mod Worker
pub mod Reaper
pub mod Scheduler
pub mod Daemon
pub mod Routes
pub mod Custody
pub mod Dashboard
pub mod Lifecycle
pub mod Line
pub mod Samples
pub mod App
pub mod Gateway
