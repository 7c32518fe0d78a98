-- ===== src/Lease/Recovery.antt =====
-- packages/db/src/persistence/mailbox-execution-recovery-store.ts: taking a lease away from a worker
-- that let it run out. Transactions run one at a time, so `skipLocked` skips no row.
use mailmon.Base.{
  inl, inr, Option-cases, ◌≡◌, sym, ◌∙◌, arith, ℕ, String, Bool, true, false, Option, none, some,
  List, leb, is_text, ◌==◌, ◌&&◌,
}
use mailmon.Base.Table.{KeyUnique, keep_if, find?-key_and, find?, update_where}
use mailmon.Contracts.{SyncRunOutcome}
use mailmon.OperationalState.{transition_for_stuck_execution_recovery}
use mailmon.OperationalState.Update.{apply_transition}
use mailmon.Schema.{
  MailboxRow, SyncRunRow, SyncRunStatus, SyncTables, mailbox_is, sync_run_is, without_lease,
}

-- and(isNotNull(expiresAt), lte(expiresAt, at))
abbrev pub lease_ran_out : ℕ → Option ℕ → Bool
lease_ran_out at none = false
lease_ran_out at (some expires_at) = leb expires_at at

-- isNull(activeSyncRunId), or eq(activeSyncRunId, syncRunId)
abbrev pub same_run : Option String → Option String → Bool
same_run none none = true
same_run none (some run) = false
same_run (some wanted) run = is_text run wanted

abbrev pub recoverable : ℕ → Option String → MailboxRow → Bool
recoverable observed_at sync_run_id row =
    lease_ran_out observed_at row.active_sync_lease_expires_at
    && same_run sync_run_id row.active_sync_run_id

abbrev pub can_recover : String → ℕ → Option String → MailboxRow → Bool
can_recover mailbox_id observed_at sync_run_id row =
    mailbox_is mailbox_id row && recoverable observed_at sync_run_id row

abbrev is_running : SyncRunStatus → Bool
is_running SyncRunStatus.running = true
is_running (SyncRunStatus.ended outcome) = false

abbrev give_up_run : ℕ → SyncRunRow → SyncRunRow
give_up_run observed_at run = record run {
  completed_at = some observed_at;
  detail = some "stuck_mailbox_execution_recovered";
  events_emitted = some 0;
  next_cursor = none;
  status = SyncRunStatus.ended SyncRunOutcome.lease_lost;
}

abbrev give_up_runs : String → ℕ → Option String → List SyncRunRow → List SyncRunRow
give_up_runs mailbox_id observed_at none runs = runs
give_up_runs mailbox_id observed_at (some id) runs =
    update_where
      (λ run. sync_run_is id run && (run.mailbox_id == mailbox_id && is_running run.status))
      (give_up_run observed_at) runs

abbrev pub recover_row : ℕ → MailboxRow → MailboxRow
recover_row observed_at row =
    record (apply_transition (transition_for_stuck_execution_recovery observed_at)
      (without_lease row)) { updated_at = observed_at }

unfoldable pub recover_stuck_mailbox_sync_execution :
    String → ℕ → Option String → SyncTables → Bool × SyncTables
recover_stuck_mailbox_sync_execution mailbox_id observed_at sync_run_id db =
    elim (find? (can_recover mailbox_id observed_at sync_run_id) db.mailboxes) [
      | none ↦ (false, db)
      | some row ↦ (
        true,
        record {
          sync_runs = give_up_runs mailbox_id observed_at row.active_sync_run_id db.sync_runs;
          mailboxes = update_where (mailbox_is mailbox_id) (recover_row observed_at) db.mailboxes;
        },
      )
    ]

-- The row that a recovery finds is the mailbox's row, and its lease has run out.
pub recover_finds :
    (id : String) (observed_at : ℕ) (run : Option String) (rows : List MailboxRow)
    (row : MailboxRow)
    → KeyUnique (λ (r : MailboxRow). r.id) rows
    → find? (can_recover id observed_at run) rows ≡ some row
    → (find? (mailbox_is id) rows ≡ some row)
      × (lease_ran_out observed_at row.active_sync_lease_expires_at ≡ true)
      × (same_run run row.active_sync_run_id ≡ true)
recover_finds id observed_at run rows row unique e =
    elim (Option-cases (find? (mailbox_is id) rows)) [
      | inl missing ↦ ground (arith, narrowed, missing)
      | inr (found, there) ↦ ground (arith, narrowed, there)
    ]
  where
    narrowed : keep_if (recoverable observed_at run) (find? (mailbox_is id) rows) ≡ some row
    narrowed = sym (find?-key_and _ id (recoverable observed_at run) rows unique) ∙ e
