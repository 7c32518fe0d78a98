-- ===== src/OperationalState/Update.antt =====
-- toMailboxOperationalTransitionUpdate of packages/db/src/persistence/operational-state-mappers.ts:
-- the columns of a mailbox that a transition sets.
use mailmon.Base.{Option, none, some}
use mailmon.Contracts.{CompletedSyncRun}
use mailmon.OperationalState.{MailboxOperationalTransition, transition_for_completed_sync_run}
use mailmon.Schema.{MailboxRow}

abbrev set_or {ℓ} : {A : Type ℓ} → Option A → A → A
set_or none old = old
set_or (some new) old = new

unfoldable pub apply_transition : MailboxOperationalTransition → MailboxRow → MailboxRow
apply_transition t row = record row {
  last_error_code = some t.last_error.code;
  last_error_message = some t.last_error.message;
  last_error_occurred_at = some t.last_error.occurred_at;
  last_error_retryable = some t.last_error.retryable;
  status = set_or t.status row.status;
  sync_state = set_or t.sync_state row.sync_state;
  watch_state = set_or t.watch_state row.watch_state;
}

-- toCompletedSyncRunMailboxTransitionUpdate, spread into the update of a mailbox with `updatedAt`.
unfoldable pub apply_completed_sync_run : CompletedSyncRun → MailboxRow → MailboxRow
unfolding apply_transition
apply_completed_sync_run result row = elim (transition_for_completed_sync_run result) [
  | none ↦ row
  | some t ↦ record (apply_transition t row) { updated_at = result.completed_at }
]
