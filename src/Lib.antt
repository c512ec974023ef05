-- ===== src/Lib.antt =====
-- The VPS manager's API server, packages/api: alerts about Docker hosts and containers, upgrade jobs of
-- the agent on the local host, and the guards on lifecycles, terminals, request rates and SSH
-- targets.
--
-- Parts and files.
-- * Alerts/Unavailable, docker/docker-alert-evaluator.ts up to line 250: `evaluate` is
--   evaluateDockerUnavailable on a window of five signals. Hysteresis has its step, History its runs.
-- * Alerts/Evidence, Alerts/RuleState and Alerts/Typed, the rest of that file: `classify` is
--   classifyDockerAlertObservation, `docker_alert_rules` the table of rules, `evaluate` is
--   evaluateDockerAlert. Typed/Branches and Typed/Rules have its branches, Typed/Cooldown its runs.
-- * Upgrade/Job and Upgrade/Store, local-upgrade/local-upgrade.models.ts and
--   persistence/repositories/local-upgrade.repository.ts: jobs and the JSON store. A call of the store
--   holds the file lock, so it is one step. Store/Swap has the contract of compareAndSet,
--   Store/Evolution, Unique and Limits the other laws.
-- * Upgrade/Service, Progress, Verdict, Claim and Creation, local-upgrade/local-upgrade.service.ts:
--   `progress`, `result` (here `report_result`), `reconcile`, `claim` and `createJob`. A handler reads,
--   waits, and commits by compare-and-set, so what other requests write at each wait is a parameter
--   `Others`. Guarantee is about what the handlers rely on of one another and what they keep (`Moves`),
--   Eligible about the limits of the store, Quiet about handlers beside which no other request writes,
--   and Forgotten about one run across the swap.
--   View is the state of getAgentUpdate, with listJobs and getJob. Catalog has the two lookups of
--   release/release-catalog.service.ts, Meanings what the tests of the handlers mean, and Conditions
--   and Installable the conditions of createJob.
-- * Access/Lifecycle, agents/agent-lifecycle-coordinator.ts; Access/Terminals,
--   terminal/terminal-registry.ts; Access/RateLimit, common/rate-limit-store.ts and the decision of
--   common/rate-limit.middleware.ts.
-- * Access/HostPolicy, ssh/ssh-host-policy.ts: which addresses may be connected to, and the one that is
--   picked among resolved ones. Ranges has the bounds of the ranges, Targets what is picked. An address
--   is given by its numbers.
-- * Monitoring, persistence/repositories/docker-monitoring.repository.ts with the types of
--   docker/docker-monitoring.models.ts (Records): the JSON store of Docker monitoring. Ingest is
--   ingestUnit, from its replays to its commit; HostRule and TypedRules are the alert rules that it
--   runs, with the evidence of Evidence; Caps is truncatePerVps and enforceCaps; Upkeep acknowledges
--   and resolves alerts and has cleanupForVps; Pruning is
--   pruneSamplesEventsAndStorage; Lists and Pages are the paged lists, with the cursors
--   (Cursor) of docker/docker-monitoring.schemas.ts. Ingest/Branches has the ways in which an ingest
--   returns, Ingest/Ledger what it promises about sequences and watermarks, Ingest/Replay units that
--   are sent again. Tables has the reads and writes of arrays and maps, Runtime what is asked of
--   JavaScript and Node.
-- All of these paths are under packages/api/src. Prelude has the shared names, text and list lemmas and
-- the result type `Outcome`; Tests modules have concrete runs.
--
-- Choices. A time that the code writes as ISO text and parses back is its number of milliseconds; in
-- the alert evaluators it stays text, and whether it parses is a parameter. Ratios of the evaluators
-- are an abstract type with the comparisons that the code makes. The retry loops of the service run
-- three attempts, as in the code: the number of attempts left is the recursion's argument, and running
-- out is the conflict that the code throws. Counters are natural numbers; the code's stay far below
-- the 2^53 to which a JavaScript number is exact.
--
-- A call of the monitoring store holds the lock of its file, so it is one step, and a call that throws
-- writes nothing. Source sequences and watermark times, decimal text that the code reads with BigInt,
-- are their numbers. `alertRuleStates` is a map for docker_unavailable and one for the typed rules, with
-- keys that are tuples where the code joins texts with NUL characters. The size of the file, the order
-- of text, the schema library and Base64 are parameters. A client that reads a list page by page is
-- given one page more than the list has rows, which is enough where a page has a row at least.
--
-- Not modelled. The Postgres repositories (SQL with the same contract), the fetching, verifying and
-- caching of release manifests (the one that is resolved is an argument), audit metadata,
-- controllers, the text of SSH addresses, host keys and pins with the rest of the SSH layer, the
-- terminal sessions themselves, rollups of Docker monitoring and its service, Docker management,
-- metrics, the dashboard, the Go agent and the web client.
pub mod Prelude
pub mod Alerts
pub mod Upgrade
pub mod Access
pub mod Monitoring
