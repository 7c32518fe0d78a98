-- ===== src/Lib.antt =====
-- Verification library of mailmon, a service that keeps a canonical copy of Gmail mailboxes and
-- delivers their changes as webhooks.
--
-- A user connects a mailbox by a session, which is completed within a quarter of an hour. A worker
-- that is to sync a mailbox records a run, takes the lease of the mailbox, fetches the Gmail history
-- since the stored cursor, and commits the changes, the events and the next cursor in one transaction,
-- which also ends the run and frees the lease. An endpoint subscribes to mailboxes. Each event becomes one delivery for each webhook
-- endpoint that subscribes to it. A worker claims a delivery, sends it, and completes, retries or
-- fails it. Leases and claims that a crashed worker left behind run out and are recovered. A replay
-- sends the events of a range of time to an endpoint again. Timers renew the Gmail watches, repair
-- mailboxes whose cursor or watch failed, and dispatch the queued replays.
--
-- Base: tests on numbers and texts, tables as lists of rows with the statements that the stores run,
--   sets of texts in order of insertion, decimal texts, JavaScript's order of texts.
-- Contracts, Schema: the types of packages/core/src/contracts.ts and the rows of
--   packages/db/src/schema.ts. A field keeps its name in snake case.
-- OperationalState: packages/core/src/mailbox-operational-state.ts, with the mapping to columns of
--   packages/db/src/persistence/operational-state-mappers.ts in OperationalState/Update.
-- SyncRuns: startSyncRun and completeSyncRun of packages/db/src/persistence/sync-runs.ts.
-- Lease: acquireMailboxSyncLease, renewMailboxSyncLease, releaseMailboxSyncLease and
--   recordMailboxSyncDispatchExhausted of packages/db/src/persistence/mailbox-sync-coordinator.ts;
--   Lease/Recovery: recoverStuckMailboxSyncExecution of mailbox-execution-recovery-store.ts;
--   Lease/Calls: all of these as one step on the tables.
-- Cursor: the cursors of packages/db/src/persistence/canonical-state-mappers.ts and of
--   packages/core/src/mailbox-watch-renewal.ts.
-- Canonical, MailboxEvents: the other mappers of canonical-state-mappers.ts, and
--   mailbox-event-mappers.ts beside it.
-- Commit: applyMailboxSyncCommit of packages/db/src/persistence/mailbox-sync-commit.ts, with one
--   function for each function of that file, in Commit/State, Snapshot, Threads and Events.
-- Execution: runMailboxSync of packages/core/src/mailbox-sync-execution.ts, with its types and small
--   steps in Execution/Steps; Execution/Writes: everything that writes a lease as one step. The schedule of
--   the deliveries after the commit is only that it ends, dies or is overtaken; what it writes is in
--   Delivery/Creation.
-- Delivery: the classification of attempts of packages/core/src/webhook-delivery-execution.ts;
--   Delivery/Store: prepareWebhookDeliveryAttempt and completeWebhookDeliveryAttempt of
--   packages/db/src/persistence/webhook-deliveries.ts and the recovery schedule of
--   webhook-delivery-mappers.ts; Delivery/Creation: createWebhookDeliveriesForMailboxEvents and
--   createWebhookDeliveriesForReplay; Delivery/Run: runWebhookDelivery, which joins them.
-- Gmail/History: compactGmailHistoryRecords of packages/gmail/src/history.ts; Gmail/Projection:
--   mergeInitialSyncMessages and the threads of toSyncSnapshot of canonical-projection.ts beside it.
-- Gmail/Parsers: packages/gmail/src/parsers.ts and problems.ts; Gmail/Pages: the loop over the pages of a
--   history, and its delta, of history.ts. Json: a value that JSON.parse gives.
-- Pagination: packages/db/src/persistence/pagination-cursors.ts. Codec:
--   packages/core/src/internal-message-codec.ts.
-- Connect: packages/db/src/persistence/connect-sessions.ts; Connect/Sessions:
--   packages/core/src/mailbox-connect-sessions.ts.
-- Endpoints: createWebhookEndpointSubscription of packages/core/src/webhook-endpoints.ts and the two
--   operations of packages/db/src/persistence/webhook-endpoints.ts.
-- Push: ingestGmailPushNotification of packages/core/src/mailbox-dispatch.ts, with the query of
--   packages/db/src/persistence/mailbox-catalog.ts.
-- Replay: packages/db/src/persistence/replays.ts, with its types in Replay/Tables; Replay/Dispatch:
--   dispatchReplays of packages/core/src/replay-dispatch.ts.
-- Maintenance: the passes that a timer starts. Maintenance/Watches and Renewal: mailbox-watch-store.ts of
--   packages/db/src/persistence and packages/core/src/mailbox-watch-renewal.ts; Maintenance/Repairs:
--   mailbox-repair-store.ts and mailbox-repair.ts of the same directories; Maintenance/Stuck: the list of
--   mailbox-execution-recovery-store.ts and packages/core/src/mailbox-execution-recovery.ts.
-- Examples: the code on concrete tables.
--
-- A transaction is one step, and transactions run one after the other, so a row lock that skips locked
-- rows skips none. An exception inside a transaction leaves the tables as they were. A table is the
-- list of its rows; that ids are unique is a hypothesis, which the calls are shown to keep. Rows that
-- would break a foreign key or another unique column are not refused, except the update of a mailbox that
-- is connected again. A timestamp is its number of
-- milliseconds since the epoch; the clock and new random ids are arguments, and the clock stands still
-- within a transaction. Times before the epoch do not occur, so the cutoff of a stale claim is written
-- as the time of the claim plus the timeout. The retry delay is capped before a JavaScript number
-- loses precision, so natural numbers compute it. Loops are recursion on lists; only the printing of a
-- number in Base/Decimal runs on fuel, with the number itself as fuel, and a lemma there shows it
-- enough, and so does the loop over the pages of a history, for which as many rounds as Gmail has pages
-- are enough; that Gmail's pages end is not shown.
--
-- A pass over several targets (Effect.forEach) takes them one after the other, although the program
-- works on up to ten at a time; Base/Passes has the rules for what a pass keeps and reaches.
--
-- Parameters stand for the digest of node:crypto, JSON and base64, the schema library's nonempty strings, the dates of JavaScript, the token
-- cipher, trim and toLowerCase, the HTTP client, the order of texts in the database, what other
-- workers do to the tables during a send or a fetch, and for the answers of the webhook sender, the
-- mailbox provider, the provider of watches, the scheduler of deliveries and the dispatcher of syncs,
-- interfaces of packages/core that other packages implement.
--
-- Not modelled: the Gmail HTTP client, OAuth and ciphers, the API server, the command line, the
-- configuration and the queue, which are input and output or cryptography of the platform; and, so
-- far, the projection of single Gmail messages and read models.
pub mod Base
pub mod Json
pub mod Contracts
pub mod Schema
pub mod OperationalState
pub mod SyncRuns
pub mod Lease
pub mod Cursor
pub mod Canonical
pub mod MailboxEvents
pub mod Commit
pub mod Execution
pub mod Delivery
pub mod Gmail
pub mod Replay
pub mod Maintenance
pub mod Pagination
pub mod Codec
pub mod Connect
pub mod Endpoints
pub mod Push
pub mod Examples
