-- ===== src/Maintenance/Stuck.antt =====
-- listStuckMailboxSyncExecutions of packages/db/src/persistence/mailbox-execution-recovery-store.ts
-- and recoverStuckMailboxSyncExecutions of packages/core/src/mailbox-execution-recovery.ts.
pub mod Freed
use mailmon.Base.{
  ℕ, ◌+◌, String, Bool, true, false, ◌&&◌, Option, none, some, List, [], ◌∷◌, leb, ◌==◌,
  if◌then◌else◌, length, take,
}
use mailmon.Base.Passes.{Left, for_each}
use mailmon.Base.Queries.{select_sorted}
use mailmon.Base.Table.{select_where}
use mailmon.Contracts.{MailboxStatus}
use mailmon.Lease.Recovery.{recover_stuck_mailbox_sync_execution}
use mailmon.Maintenance.Columns.{ordered_by}
use mailmon.Schema.{MailboxRow, SyncTables}

-- DEFAULT_STUCK_MAILBOX_SYNC_RECOVERY_BATCH_SIZE
abbrev default_stuck_mailbox_sync_recovery_batch_size : ℕ
default_stuck_mailbox_sync_recovery_batch_size = 100

pub record RecoveredStuckMailboxSyncExecution : Type 0 where
  pub mailbox_id : String
  pub lease_owner_id : Option String
  pub sync_run_id : Option String

pub record StuckMailboxSyncRecoveryOutcome : Type 0 where
  pub dispatched : Bool
  pub recovered : Bool
  pub recovered_execution : Option RecoveredStuckMailboxSyncExecution
  pub skipped_reconnect_required : Bool

pub record RecoverStuckMailboxSyncExecutionsResult : Type 0 where
  pub completed_at : ℕ
  pub dispatched : ℕ
  pub recovered : ℕ
  pub recovered_executions : List RecoveredStuckMailboxSyncExecution
  pub scanned : ℕ
  pub skipped_reconnect_required : ℕ

-- inArray(status, ["active", "reconnect_required"])
abbrev can_be_stuck : MailboxStatus → Bool
can_be_stuck MailboxStatus.disabled = false
can_be_stuck _ = true

-- isNotNull(expiresAt), and lte(expiresAt, observedAt - staleThresholdMs)
abbrev stale_lease : ℕ → ℕ → Option ℕ → Bool
stale_lease observed_at stale_threshold_ms none = false
stale_lease observed_at stale_threshold_ms (some at) = leb (at + stale_threshold_ms) observed_at

abbrev pub is_stuck : ℕ → ℕ → MailboxRow → Bool
is_stuck observed_at stale_threshold_ms row =
    row.provider == "gmail"
    && (can_be_stuck row.status
        && stale_lease observed_at stale_threshold_ms row.active_sync_lease_expires_at)

-- asc(activeSyncLeaseExpiresAt), asc(id)
abbrev stuck_leq : (String → String → Bool) → MailboxRow → MailboxRow → Bool
stuck_leq text_before a b =
    ordered_by a.active_sync_lease_expires_at b.active_sync_lease_expires_at (text_before a.id b.id)

unfoldable pub list_stuck_mailbox_sync_executions :
    (String → String → Bool) → ℕ → ℕ → ℕ → List MailboxRow → List MailboxRow
unfolding take select_sorted
list_stuck_mailbox_sync_executions text_before limit observed_at stale_threshold_ms mailboxes =
    take limit
      (select_sorted (stuck_leq text_before) (is_stuck observed_at stale_threshold_ms) mailboxes)

abbrev pub requires_reconnect : MailboxStatus → Bool
requires_reconnect MailboxStatus.reconnect_required = true
requires_reconnect _ = false

-- The target's lease owner and run are the columns of its row.
abbrev recovered_execution_of : MailboxRow → RecoveredStuckMailboxSyncExecution
recovered_execution_of target = record {
  mailbox_id = target.id;
  lease_owner_id = target.active_sync_lease_owner;
  sync_run_id = target.active_sync_run_id;
}

unfoldable pub count_recoveries :
    (StuckMailboxSyncRecoveryOutcome → Bool) → List StuckMailboxSyncRecoveryOutcome → ℕ
unfolding select_where
count_recoveries p outcomes = length (select_where p outcomes)

abbrev cons_present :
    Option RecoveredStuckMailboxSyncExecution
    → List RecoveredStuckMailboxSyncExecution
    → List RecoveredStuckMailboxSyncExecution
cons_present none rest = rest
cons_present (some execution) rest = execution ∷ rest

-- outcomes.map((item) => item.recoveredExecution).filter((item) => item !== null)
unfoldable pub recovered_executions_of :
    List StuckMailboxSyncRecoveryOutcome → List RecoveredStuckMailboxSyncExecution
recovered_executions_of [] = []
recovered_executions_of (item ∷ items) =
    cons_present item.recovered_execution (recovered_executions_of items)

abbrev recovery_result_of :
    ℕ
    → List MailboxRow
    → List StuckMailboxSyncRecoveryOutcome
    → RecoverStuckMailboxSyncExecutionsResult
recovery_result_of observed_at targets outcomes = record {
  completed_at = observed_at;
  dispatched = count_recoveries (λ item. item.dispatched) outcomes;
  recovered = count_recoveries (λ item. item.recovered) outcomes;
  recovered_executions = recovered_executions_of outcomes;
  scanned = length targets;
  skipped_reconnect_required = count_recoveries (λ item. item.skipped_reconnect_required) outcomes;
}

abbrev pub Recovery : Type 0
Recovery = Left SyncTables String StuckMailboxSyncRecoveryOutcome

module _ (text_before : String → String → Bool) (accepts : String → Bool) where
  abbrev pub settle_recovery : MailboxRow → Bool × SyncTables → Recovery
  settle_recovery target (false, db) = record {
    answer = some record {
      dispatched = false;
      recovered = false;
      recovered_execution = none;
      skipped_reconnect_required = false;
    };
    sent = [];
    state = db;
  }
  settle_recovery target (true, db) =
      if requires_reconnect target.status
      then record {
        answer = some record {
          dispatched = false;
          recovered = true;
          recovered_execution = some (recovered_execution_of target);
          skipped_reconnect_required = true;
        };
        sent = [];
        state = db;
      }
      else if accepts target.id
      then record {
        answer = some record {
          dispatched = true;
          recovered = true;
          recovered_execution = some (recovered_execution_of target);
          skipped_reconnect_required = false;
        };
        sent = target.id ∷ [];
        state = db;
      }
      else record { answer = none; sent = []; state = db }

  unfoldable pub recover_target : ℕ → MailboxRow → SyncTables → Recovery
  unfolding recover_stuck_mailbox_sync_execution
  recover_target observed_at target db =
      settle_recovery target
        (recover_stuck_mailbox_sync_execution target.id observed_at target.active_sync_run_id db)

  unfoldable pub recover_stuck_mailbox_sync_executions :
      ℕ → ℕ → ℕ → SyncTables → Left SyncTables String RecoverStuckMailboxSyncExecutionsResult
  unfolding recover_target for_each list_stuck_mailbox_sync_executions count_recoveries
      recovered_executions_of
  recover_stuck_mailbox_sync_executions limit observed_at stale_threshold_ms db =
      let targets =
        list_stuck_mailbox_sync_executions text_before limit observed_at stale_threshold_ms
          db.mailboxes in
      let left = for_each (recover_target observed_at) targets db in
      record {
        answer = elim left.answer [
          | none ↦ none
          | some outcomes ↦ some (recovery_result_of observed_at targets outcomes)
        ];
        sent = left.sent;
        state = left.state;
      }
