-- ===== src/Commit/Finalized.antt =====
-- What finalizeMailboxSyncCommit leaves in the mailboxes and the runs.
use mathlib.Core.Option
use mailmon.Base.{ℕ, String, ◌≡◌, refl, ap, ◌∙◌, some, arith, if◌then◌else◌}
use mailmon.Base.Table.{find?, update_where, find?-update_where, find?_sound}
use mailmon.Commit.State.{Commit, finalize_mailbox_sync_commit, commit_mailbox, commit_run}
use mailmon.Schema.{MailboxRow, SyncRunRow, SyncTables, mailbox_is, sync_run_is}

module _ (commit : Commit) (events : ℕ) (row : MailboxRow) (sync sync' : SyncTables) where
  module _ (done : finalize_mailbox_sync_commit commit events row sync ≡ some sync') where
    pub finalized :
        (sync'.mailboxes
          ≡ update_where
              (mailbox_is commit.mailbox_id)
              (commit_mailbox commit row.initialized_at)
              sync.mailboxes)
        × (sync'.sync_runs
            ≡ update_where
                (sync_run_is commit.sync_run_id)
                (commit_run commit events row.cursor)
                sync.sync_runs)
    unfolding finalize_mailbox_sync_commit
    finalized = ground (arith, done)

    -- Every mailbox but the commit's is as it was.
    pub finalized_mailbox :
        (id : String)
        → find? (mailbox_is id) sync'.mailboxes
          ≡ Option.map
              (λ r.
                if mailbox_is commit.mailbox_id r
                then commit_mailbox commit row.initialized_at r
                else r)
              (find? (mailbox_is id) sync.mailboxes)
    finalized_mailbox id =
        ap (find? (mailbox_is id)) finalized.0
        ∙ find?-update_where (mailbox_is commit.mailbox_id) (mailbox_is id)
            (commit_mailbox commit row.initialized_at) sync.mailboxes (λ r. refl)

    pub finalized_self :
        find? (mailbox_is commit.mailbox_id) sync.mailboxes ≡ some row
        → find? (mailbox_is commit.mailbox_id) sync'.mailboxes
          ≡ some (commit_mailbox commit row.initialized_at row)
    finalized_self found =
        finalized_mailbox commit.mailbox_id
        ∙ ap (Option.map _) found
        ∙ ground (arith, find?_sound (mailbox_is commit.mailbox_id) sync.mailboxes row found)

    pub finalized_run :
        (id : String)
        → find? (sync_run_is id) sync'.sync_runs
          ≡ Option.map
              (λ r.
                if sync_run_is commit.sync_run_id r
                then commit_run commit events row.cursor r
                else r)
              (find? (sync_run_is id) sync.sync_runs)
    finalized_run id =
        ap (find? (sync_run_is id)) finalized.1
        ∙ find?-update_where (sync_run_is commit.sync_run_id) (sync_run_is id)
            (commit_run commit events row.cursor) sync.sync_runs (λ r. refl)

    pub finalized_run_found :
        (r : SyncRunRow) × (find? (sync_run_is commit.sync_run_id) sync.sync_runs ≡ some r)
    unfolding finalize_mailbox_sync_commit
    finalized_run_found = ground (arith, done)
