-- ===== src/Lib.antt =====
-- antimage: a panel that issues configuration documents to VPN nodes, and the agent that applies
-- them on each node. This library models the control loop between the two, the accounting of
-- traffic from the agent's poll to the panel's roll-ups, the customers with their credentials,
-- expiry and quotas, resellers and their credit, the roll-out of deployments, the hub that
-- reaches the connected agents, the limits on a node's connections, the login limiter and the
-- billing arithmetic, as translated from the Go sources.
--
-- The program's parts and how they interact. An administrator's change goes through
-- CommitNodeChange (internal/panel/nodes/commit.go): in one transaction it mutates the content,
-- rebuilds the desired document and, if the hash of the document has changed, issues the node's
-- next revision. The agent fetches the document and converges the host to it
-- (internal/node/agent/reconcile.go): each adapter observes, plans, applies and confirms. It then
-- reports the run, and RecordApplyRun (internal/panel/nodes/convergence.go) decides whether the
-- applied revision advances, by comparing the reported hash with that of the stored revision.
-- Hellos and heartbeats keep the node's status fresh. Billing (internal/panel/nodes/billable.go)
-- turns raw bytes into billed ones. The agent polls its adapters for traffic and sends reports
-- (internal/node/agent/accounting.go); the panel ingests them and folds them into buckets
-- (internal/panel/nodes/accounting.go). Resellers (internal/panel/resellers/resellers.go) pay for
-- the customers they provision from a ledger of credit. The orchestrator
-- (internal/panel/deployment/orchestrator.go) rolls a revision out to nodes. The customers are
-- subjects (internal/panel/subjects): sweeps retire the expired ones, freeze those whose billed
-- traffic reaches their quota (internal/panel/nodes/quota.go), and republish their nodes. The hub
-- (internal/panel/control/hub.go) tells the connected agents of new revisions and carries commands
-- to them. On the node, the enforcer admits or refuses connections.
--
-- Files:
--   Common           re-exported library names, Boolean tests, lists measured by native numbers
--   Common/Maps      maps as association lists; Common/Int: signed integers, and their wrap-around
--   Common/Outcome   functions that return an error, and transactions
--   NodeStatus       internal/panel/nodes/state_machine.go: Status, ValidateTransition (a table)
--     Table, Reason, Diagram: the rule behind the table, TransitionReason, histories of statuses
--   Panel/Db         the tables with node state, as lists of rows, and Store.Write (the function's
--                    tables are kept on success and dropped on an error)
--   Panel/Commit     commit.go: CommitNodeChange is commit_node_change, the function inside the
--                    transaction commit_tx; Latest and Effects hold what a success has written
--   Panel/ApplyRuns  convergence.go: RecordApplyRun is record_apply_run, its switch is classify;
--                    Effects, Verdicts and Total hold what it writes and when it succeeds
--   Panel/Presence   RecordHello, RecordHeartbeat, and UpsertAdapter of registry.go
--   Panel/Consistency  the invariant of the tables, across each write
--   Panel/Publishing the commit in consistent tables; History: all writes in any order; Reports:
--                    the node's report on what was published
--   Panel/Billing    billable.go: mul_div, mul_div_ceil, billable, threshold; MulDiv, Charges and
--                    Rounding compare them with exact arithmetic
--   Panel/Resellers  internal/panel/resellers/resellers.go: Tables (rows, and the interface of the
--                    subject store), Ledger (Balance, Get, Credit), Provision (ProvisionSubject,
--                    checkLimits, OwnerOf), Tenants (Create, Update, Delete); Account, Provisions,
--                    Promises, Kept, Replay and Tenancy hold what is proved
--   Panel/Usage      internal/panel/nodes/accounting.go: Tables, Ingest (IngestUsageReport,
--                    activateIfOnHold, resolveService, PruneUsageDeltas), Rollup (RollupHourly,
--                    RollupDaily); Counted, Once, Folded, History and Repeats hold what is proved
--   Panel/Deployment internal/panel/deployment: Tables, Writes (each UPDATE and transaction),
--                    Execution (orchestrator.go: CreateDeployment, ExecuteDeployment with its
--                    strategies, RollbackDeployment), Sweeps (timeout.go, recovery.go); Exclusive,
--                    Keeps, Pauses, Calls, Stages and Applied hold what is proved
--   Panel/Subjects   internal/panel/subjects and internal/shared/secrets/box.go: Tables, Credentials
--                    (Seal, Open, putCredential, Rotate), Store (Create, Update, Delete, Freeze, …),
--                    Tokens (tokens.go), Sweeper (sweeper.go); Sealed, Created, Unique, Indexed,
--                    Reissued, Calls, Links, Marked, Affected and Swept hold what is proved
--   Panel/Quota      internal/panel/nodes: Over (quota_billable.go), Sweeps (quota.go); Judged,
--                    Enforced and Renewed hold what is proved
--   Panel/Hub        internal/panel/control/hub.go: Channels (Go's channels of capacity one),
--                    Streams (Register, its release, Notify), Commands (SendCommand,
--                    DeliverResult), Calls (what the goroutines do, in any order); Sound, Entries,
--                    Callers, Safe, Answered, Promises and Superseded hold what is proved
--   Agent/Accounting internal/node/agent/accounting.go: pollAndReport is poll_and_report; Polls: the
--                    state file; Delivery: the agent connected to the panel's onUsageReport
--   Agent/Plan       internal/node/adapter/adapter.go: steps, plans, results
--   Agent/Host       what the reconciler is given: adapters, clock, context, options
--   Agent/Retry      applyWithRetry; Agent/Reconcile: Converge, with Cases, Steps and Outcome
--   Agent/Enforcement  internal/node/enforcement/enforcement.go: the limits of a subject; Removal
--                    holds the ends of connections, Limits, Cleanup and Sorting what is proved
--   Panel/Limiter    internal/panel/auth/ratelimit.go: back-off after failed logins; Waits
--   Panel/Rbac       internal/panel/rbac/perm.go and authz.go: roles and Check; Grants
--   Tests            runs at concrete values, and each theorem applied to one
--
-- Conventions. int64 values that may be negative are signed integers (Common/Int), others native
-- numbers; uint64 arithmetic in billing and the doubling of the back-off keep their wrap-around.
-- Sums that SQLite makes end in an error when they are no int64; Go's own sums and differences
-- of int64 values in the reseller checks wrap. A Go map is an association list, a table a list
-- of rows. The host of the reconciler (clock, context, adapters) is a state that each call takes
-- and returns, so the order of the calls is the order of the source. Retries recurse on the
-- number of attempts left, which NewReconciler makes positive; a pause of a deployment is a
-- function `sleep` on the tables, as others write meanwhile; the sort of the connections makes
-- as many turns as there are connections. Channels live in a
-- heap, and a panic of a channel is an error. Each critical section of the hub is one step:
-- in Calls the steps of all goroutines come in any order, and send_command lets the others run
-- while it waits. DeliverResult sends after it has released its lock; as no channel of a
-- caller is ever closed, it is one step all the same.
--
-- Not modelled: the building of the desired document and SHA-256 (a parameter `build` of the
-- commit), the SQL driver and its failures, the drivers of the protocols (parameters of the
-- reconciler), the HTTP API, the transport between agent and panel, ValidateRevision
-- (a parameter of CreateDeployment), deployments that interleave elsewhere than
-- in their pauses, and rendering. They are I/O, or separate components.
pub mod Common
pub mod NodeStatus
pub mod Panel
pub mod Agent
pub mod Tests
