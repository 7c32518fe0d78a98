-- ===== src/Commit/Fencing.antt =====
-- A commit is applied by the worker that holds the lease, once, and in the order of the cursors.
use mathlib.Core.Option
use mailmon.Base.{
  ℕ, String, ◌≡◌, ◌≢◌, refl, ap, ◌∙◌, ◌⊎◌, inl, inr, Bool, true, false, none, some, [], arith,
  Option-cases, length,
}
use mailmon.Base.Table.{find?, find?_sound}
use mailmon.Commit.{apply_mailbox_sync_commit, commit_to_row}
use mailmon.Commit.Finalized.{finalized_self, finalized_run, finalized_run_found}
use mailmon.Commit.Guarded.{is_applied, event_ids, commit_at, commit_cases}
use mailmon.Commit.State.{
  CommitTables, Commit, committed, guard_active_lease, commit_run, guard_cursor_progression,
}
use mailmon.Cursor.{is_mailbox_cursor_regression}
use mailmon.Lease.Calls.{held_by}
use mailmon.Schema.{MailboxRow, SyncRunRow, SyncRunStatus, mailbox_is, sync_run_is}
use mailmon.Contracts.{SyncRunOutcome}
use mailmon.SyncRuns.{mailbox_cursor}

guard_cursor-forward :
    (commit : Commit) (row : MailboxRow)
    → guard_cursor_progression commit row ≡ none
    → is_mailbox_cursor_regression row.cursor commit.next_cursor ≡ false
unfolding guard_cursor_progression is_mailbox_cursor_regression
guard_cursor-forward commit row e = elim (Option-cases row.cursor) [
  | inl n ↦ rw n refl
  | inr (cursor, c) ↦ rw c (ground (arith, rw (c, guard_cursor_progression) at e))
]

module _ (text_before : String → String → Bool) (sha256_hex : String → String) where
  -- A commit that is not reported as applied, an exception included, leaves every table as it was.
  pub commit-all_or_nothing :
      (now : ℕ) (commit : Commit) (db : CommitTables)
      → (is_applied (commit_at text_before sha256_hex now commit db).0 ≡ true)
        ⊎ ((commit_at text_before sha256_hex now commit db).1 ≡ db)
  commit-all_or_nothing now commit db = elim (commit_cases text_before sha256_hex now commit db) [
    | inl (idle, same) ↦ inr same
    | inr (row, found, inl (idle, same)) ↦ inr same
    | inr (row, found, inr (guard, forward, applied, wrote)) ↦ inl applied
  ]

  pub commit-unheld :
      (now : ℕ) (commit : Commit) (db : CommitTables)
      → held_by commit.mailbox_id commit.lease_owner_id now db.sync ≡ false
      → commit_at text_before sha256_hex now commit db ≡ (committed false [], db)
  unfolding apply_mailbox_sync_commit commit_to_row
  commit-unheld now commit db unheld =
      elim (Option-cases (find? (mailbox_is commit.mailbox_id) db.sync.mailboxes)) [
        | inl e ↦ rw (e, apply_mailbox_sync_commit) refl
        | inr (row, e) ↦ rw (e, apply_mailbox_sync_commit) (closed row (rw e at unheld))
      ]
    where
      closed :
          (row : MailboxRow)
          → guard_active_lease row commit.lease_owner_id now ≡ false
          → commit_to_row text_before sha256_hex now commit row db ≡ (committed false [], db)
      closed row shut = rw (shut, commit_to_row) refl

  -- A commit by another worker than the one whose lease on the mailbox lasts beyond now writes
  -- nothing and emits nothing.
  pub commit-fenced :
      (now : ℕ) (commit : Commit) (db : CommitTables) (owner : String)
      → held_by commit.mailbox_id owner now db.sync ≡ true
      → commit.lease_owner_id ≢ owner
      → commit_at text_before sha256_hex now commit db ≡ (committed false [], db)
  commit-fenced now commit db owner held other =
      commit-unheld now commit db
        (elim (Option-cases (find? (mailbox_is commit.mailbox_id) db.sync.mailboxes)) [
          | inl e ↦ rw e refl
          | inr (row, e) ↦ rw e (ground (arith, rw e at held, other))
        ])

  module _ (now : ℕ) (commit : Commit) (db : CommitTables) where
    -- A commit that is applied was made by the worker that held the lease, moves the mailbox's
    -- cursor to its own, which is no regression, and leaves nobody with a lease on the mailbox.
    pub commit-advances :
        (o : String) (at : ℕ)
        → is_applied (commit_at text_before sha256_hex now commit db).0 ≡ true
        → (held_by commit.mailbox_id commit.lease_owner_id now db.sync ≡ true)
          × (is_mailbox_cursor_regression
                (mailbox_cursor commit.mailbox_id db.sync.mailboxes)
                commit.next_cursor
              ≡ false)
          × (mailbox_cursor commit.mailbox_id
                (commit_at text_before sha256_hex now commit db).1.sync.mailboxes
              ≡ commit.next_cursor)
          × (held_by commit.mailbox_id o at (commit_at text_before sha256_hex now commit db).1.sync
              ≡ false)
    commit-advances o at applied = elim (commit_cases text_before sha256_hex now commit db) [
      | inl (idle, same) ↦ ground (arith, applied, idle)
      | inr (row, found, inl (idle, same)) ↦ ground (arith, applied, idle)
      | inr (row, found, inr (guard, forward, wrote, done)) ↦ (
        rw found guard,
        rw (found, mailbox_cursor) (guard_cursor-forward commit row forward),
        rw (finalized_self commit _ row db.sync _ done.0 found, mailbox_cursor) refl,
        rw (finalized_self commit _ row db.sync _ done.0 found) refl,
      )
    ]

    -- A commit that is applied ends its run as completed, with the mailbox's cursor before it, the
    -- cursor that it stored and the number of the events that it reports.
    pub commit-records_run :
        is_applied (commit_at text_before sha256_hex now commit db).0 ≡ true
        → (run : SyncRunRow) × (find?
              (sync_run_is commit.sync_run_id)
              (commit_at text_before sha256_hex now commit db).1.sync.sync_runs
            ≡ some run)
          × (run.status ≡ SyncRunStatus.ended SyncRunOutcome.completed)
          × (run.next_cursor ≡ commit.next_cursor)
          × (run.previous_cursor ≡ mailbox_cursor commit.mailbox_id db.sync.mailboxes)
          × (run.events_emitted
              ≡ some (length (event_ids (commit_at text_before sha256_hex now commit db).0)))
    commit-records_run applied = elim (commit_cases text_before sha256_hex now commit db) [
      | inl (idle, same) ↦ ground (arith, applied, idle)
      | inr (row, found, inl (idle, same)) ↦ ground (arith, applied, idle)
      | inr (row, found, inr (guard, forward, wrote, done)) ↦
          let (run, e) = finalized_run_found commit _ row db.sync _ done.0 in
          (
            commit_run commit _ row.cursor run,
            finalized_run commit _ row db.sync _ done.0 commit.sync_run_id
                ∙ ap (Option.map _) e
                ∙ ground
                    (arith, find?_sound (sync_run_is commit.sync_run_id) db.sync.sync_runs run e),
            refl,
            refl,
            rw (found, mailbox_cursor) refl,
            refl,
          )
    ]
