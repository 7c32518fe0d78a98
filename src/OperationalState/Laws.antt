-- ===== src/OperationalState/Laws.antt =====
-- What the transitions of mailbox-operational-state.ts promise.
use mailmon.Base.{◌⊎◌, if◌then◌else◌, ℕ, String, ◌≡◌, false, none, some, arith}
use mailmon.Contracts.{MailboxStatus, MailboxSyncState, SyncRunOutcome}
use mailmon.OperationalState.{is_terminal_mailbox_sync_problem, transition_for_failed_detail}

-- A failed run whose detail is `code` leaves that code as the mailbox's error. It asks for a reconnect
-- exactly when the code is terminal for sync, and then the sync has failed and is not retryable.
pub failed_detail-terminal :
    (status : SyncRunOutcome) (code : String) (at : ℕ)
    → let t = transition_for_failed_detail status (some code) at in
      (t.last_error.code ≡ code)
      × (t.status ≡ (
          if is_terminal_mailbox_sync_problem code
          then some MailboxStatus.reconnect_required
          else none))
      × ((is_terminal_mailbox_sync_problem code ≡ false)
          ⊎ ((t.sync_state ≡ some MailboxSyncState.failed) × (t.last_error.retryable ≡ false)))
unfolding transition_for_failed_detail is_terminal_mailbox_sync_problem
failed_detail-terminal status code at = ground arith
