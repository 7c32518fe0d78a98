-- ===== src/OperationalState.antt =====
-- packages/core/src/mailbox-operational-state.ts: which mailbox state follows a sync run, a failed
-- watch renewal, a recovery or an exhausted dispatch.
pub mod Laws
pub mod Update
use mailmon.Base.{
  ℕ, String, Bool, true, false, Option, none, some, leb, ◌==◌, is_text, ◌||◌, ◌&&◌, if◌then◌else◌,
  String_discrete,
}
use mailmon.Contracts.{
  MailboxStatus, MailboxSyncState, MailboxWatchState, MailboxOperationalError, ProblemDetails,
  CompletedSyncRun, SyncRunOutcome,
}

-- An absent key of the transition is `none`; `lastError` is never null in this file.
pub record MailboxOperationalTransition : Type 0 where
  pub last_error : MailboxOperationalError
  pub status : Option MailboxStatus
  pub sync_state : Option MailboxSyncState
  pub watch_state : Option MailboxWatchState

abbrev last_error : String → String → ℕ → Bool → MailboxOperationalError
last_error code message occurred_at retryable = record {
  code = code;
  message = message;
  occurred_at = occurred_at;
  retryable = retryable;
}

-- TERMINAL_MAILBOX_CREDENTIAL_PROBLEM_CODES.has(code)
unfoldable pub is_terminal_mailbox_credential_problem : String → Bool
is_terminal_mailbox_credential_problem code =
    code == "gmail_mailbox_credentials_missing"
    || code == "gmail_mailbox_credential_unreadable"
    || code == "gmail_token_refresh_reconnect_required"

unfoldable pub is_terminal_mailbox_sync_problem : String → Bool
unfolding is_terminal_mailbox_credential_problem
is_terminal_mailbox_sync_problem code = is_terminal_mailbox_credential_problem code

-- The mailbox must be reconnected.
abbrev reconnect : String → String → ℕ → MailboxOperationalTransition
reconnect code message occurred_at = record {
  last_error = last_error code message occurred_at false;
  status = some MailboxStatus.reconnect_required;
  sync_state = some MailboxSyncState.failed;
  watch_state = none;
}

abbrev degrade : String → String → ℕ → Bool → MailboxSyncState → MailboxOperationalTransition
degrade code message occurred_at retryable sync_state = record {
  last_error = last_error code message occurred_at retryable;
  status = none;
  sync_state = some sync_state;
  watch_state = none;
}

unfoldable pub transition_for_credential_unreadable : ℕ → MailboxOperationalTransition
transition_for_credential_unreadable occurred_at =
    reconnect "gmail_mailbox_credential_unreadable"
      "Mailbox has a stored Gmail refresh token that could not be decrypted or migrated. The mailbox must be reconnected."
      occurred_at

unfoldable pub transition_for_dispatch_retry_exhausted : ℕ → MailboxOperationalTransition
transition_for_dispatch_retry_exhausted occurred_at =
    degrade "mailbox_sync_dispatch_retry_exhausted"
      "Mailbox sync dispatch exhausted transport retries before a worker could process it."
      occurred_at true MailboxSyncState.failed

unfoldable pub transition_for_stuck_execution_recovery : ℕ → MailboxOperationalTransition
transition_for_stuck_execution_recovery occurred_at =
    degrade "stuck_mailbox_execution_recovered"
      "Mailbox sync execution was recovered after its active lease expired." occurred_at true
      MailboxSyncState.lagging

-- watchExpiresAt !== null && Date.parse(watchExpiresAt) <= Date.parse(observedAt)
abbrev watch_has_expired : Option ℕ → ℕ → Bool
watch_has_expired none observed_at = false
watch_has_expired (some at) observed_at = leb at observed_at

unfoldable pub transition_for_watch_renewal_failure :
    ℕ → ProblemDetails → Option ℕ → MailboxOperationalTransition
unfolding is_terminal_mailbox_credential_problem
transition_for_watch_renewal_failure observed_at problem watch_expires_at =
    let terminal = is_terminal_mailbox_credential_problem problem.code in
    record {
      last_error = last_error problem.code problem.detail observed_at problem.retryable;
      status = if terminal then some MailboxStatus.reconnect_required else none;
      sync_state = if terminal then some MailboxSyncState.failed else none;
      watch_state = some (
          if watch_has_expired watch_expires_at observed_at
          then MailboxWatchState.expired
          else MailboxWatchState.unhealthy);
    }

-- The text of a status, which stands for the code of a run that failed without a detail.
abbrev outcome_text : SyncRunOutcome → String
outcome_text SyncRunOutcome.completed = "completed"
outcome_text SyncRunOutcome.skipped_due_to_active_lease = "skipped_due_to_active_lease"
outcome_text SyncRunOutcome.reconnect_required = "reconnect_required"
outcome_text SyncRunOutcome.dispatch_retry_exhausted = "dispatch_retry_exhausted"
outcome_text SyncRunOutcome.failed_after_lease_acquired = "failed_after_lease_acquired"
outcome_text SyncRunOutcome.lease_lost = "lease_lost"

abbrev detail_or_outcome : Option String → SyncRunOutcome → String
detail_or_outcome (some detail) status = detail
detail_or_outcome none status = outcome_text status

abbrev failure_message : SyncRunOutcome → String
failure_message SyncRunOutcome.lease_lost =
    "Mailbox sync lost the active mailbox lease while processing."
failure_message _ = "Mailbox sync failed after the mailbox lease was acquired."

-- The runs that leave the mailbox as it is.
unfoldable pub is_neutral_sync_run : SyncRunOutcome → Option String → Bool
is_neutral_sync_run SyncRunOutcome.completed detail = true
is_neutral_sync_run SyncRunOutcome.skipped_due_to_active_lease detail = true
is_neutral_sync_run SyncRunOutcome.reconnect_required detail =
    is_text detail "mailbox_reconnect_required"
is_neutral_sync_run _ detail = false

unfoldable pub transition_for_failed_detail :
    SyncRunOutcome → Option String → ℕ → MailboxOperationalTransition
unfolding transition_for_dispatch_retry_exhausted
transition_for_failed_detail status detail at =
    if is_text detail "gmail_token_refresh_reconnect_required"
    then reconnect "gmail_token_refresh_reconnect_required"
        "Refreshing the Gmail access token failed because the stored Gmail refresh token is invalid or revoked. The mailbox must be reconnected."
        at
    else if is_text detail "gmail_mailbox_credential_unreadable"
    then reconnect "gmail_mailbox_credential_unreadable"
        "Mailbox has a stored Gmail refresh token that could not be decrypted. The mailbox must be reconnected."
        at
    else if is_text detail "gmail_mailbox_credentials_missing"
    then reconnect "gmail_mailbox_credentials_missing"
        "Mailbox has no stored Gmail refresh token. The mailbox must be reconnected." at
    else if is_text detail "gmail_history_cursor_invalid"
    then degrade "gmail_history_cursor_invalid"
        "Mailbox requires a repair sync because the stored Gmail history cursor is invalid or expired."
        at true MailboxSyncState.lagging
    else if is_text detail "mailbox_cursor_regressed"
    then degrade "mailbox_cursor_regressed"
        "Mailbox sync produced a cursor older than the stored mailbox cursor. The cursor was not advanced."
        at false MailboxSyncState.lagging
    else if is_text detail "gmail_rate_limited"
    then degrade "gmail_rate_limited"
        "Gmail temporarily rate-limited sync operations for this mailbox." at true
        MailboxSyncState.lagging
    else if is_text detail "mailbox_sync_dispatch_retry_exhausted"
    then transition_for_dispatch_retry_exhausted at
    else degrade (detail_or_outcome detail status) (failure_message status) at true
        MailboxSyncState.failed

unfoldable pub transition_for_completed_sync_run :
    CompletedSyncRun → Option MailboxOperationalTransition
unfolding is_neutral_sync_run transition_for_failed_detail
transition_for_completed_sync_run result =
    if is_neutral_sync_run result.status result.detail
    then none
    else some (transition_for_failed_detail result.status result.detail result.completed_at)
