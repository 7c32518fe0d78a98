-- ===== src/Maintenance/Watches.antt =====
-- packages/db/src/persistence/mailbox-watch-store.ts: the columns of a mailbox's Gmail watch.
use Prim.Native.Char.{code}
use mailmon.Base.{
  ℕ, ◌+◌, String, Bool, true, false, ◌&&◌, ◌||◌, Option, none, some, List, leb, ◌==◌, if◌then◌else◌,
  take,
}
use mailmon.Base.Prefix.{starts_with}
use mailmon.Base.Queries.{select_sorted}
use mailmon.Base.Table.{find?, update_where}
use mailmon.Contracts.{MailboxStatus, MailboxWatchState, ProblemDetails}
use mailmon.Maintenance.Columns.{ordered_by}
use mailmon.OperationalState.{transition_for_watch_renewal_failure}
use mailmon.OperationalState.Update.{apply_transition}
use mailmon.Schema.{MailboxRow, mailbox_is}

abbrev pub is_active : MailboxStatus → Bool
is_active MailboxStatus.active = true
is_active _ = false

-- isNull(watchExpirationAt), or lte(watchExpirationAt, cutoff)
abbrev expires_by : ℕ → Option ℕ → Bool
expires_by cutoff none = true
expires_by cutoff (some at) = leb at cutoff

-- inArray(watchState, ["expired", "expiring", "unhealthy"])
abbrev is_failing : MailboxWatchState → Bool
is_failing MailboxWatchState.active = false
is_failing _ = true

abbrev pub needs_renewal : ℕ → ℕ → MailboxRow → Bool
needs_renewal observed_at renewal_window_ms row =
    row.provider == "gmail"
    && (is_active row.status
        && (expires_by (observed_at + renewal_window_ms) row.watch_expiration_at
            || is_failing row.watch_state))

-- asc(watchExpirationAt), asc(id)
abbrev watch_leq : (String → String → Bool) → MailboxRow → MailboxRow → Bool
watch_leq text_before a b =
    ordered_by a.watch_expiration_at b.watch_expiration_at (text_before a.id b.id)

-- A target of the renewal is read from the row.
unfoldable pub list_mailbox_watches_needing_renewal :
    (String → String → Bool) → ℕ → ℕ → ℕ → List MailboxRow → List MailboxRow
unfolding take select_sorted
list_mailbox_watches_needing_renewal text_before limit observed_at renewal_window_ms mailboxes =
    take limit (
      select_sorted (watch_leq text_before) (needs_renewal observed_at renewal_window_ms) mailboxes)

-- watchExpirationAt of the row that is read first, or null without one.
abbrev expiration_of : Option MailboxRow → Option ℕ
expiration_of none = none
expiration_of (some row) = row.watch_expiration_at

abbrev started_state : ℕ → Option ℕ → MailboxWatchState
started_state observed_at none = MailboxWatchState.expiring
started_state observed_at (some at) =
    if leb at observed_at then MailboxWatchState.expired else MailboxWatchState.expiring

abbrev pub start_renewal : ℕ → MailboxWatchState → MailboxRow → MailboxRow
start_renewal observed_at state row = record row { watch_state = state; updated_at = observed_at }

unfoldable pub mark_mailbox_watch_renewal_started : String → ℕ → List MailboxRow → List MailboxRow
mark_mailbox_watch_renewal_started mailbox_id observed_at mailboxes =
    let state =
      started_state observed_at (expiration_of (find? (mailbox_is mailbox_id) mailboxes)) in
    update_where (mailbox_is mailbox_id) (start_renewal observed_at state) mailboxes

-- row?.lastErrorCode?.startsWith("gmail_watch_") ?? false
abbrev watch_error_code : Option String → Bool
watch_error_code none = false
watch_error_code (some code) = starts_with "gmail_watch_" code

abbrev has_watch_error : Option MailboxRow → Bool
has_watch_error none = false
has_watch_error (some row) = watch_error_code row.last_error_code

abbrev clear_last_error : MailboxRow → MailboxRow
clear_last_error row = record row {
  last_error_code = none;
  last_error_message = none;
  last_error_occurred_at = none;
  last_error_retryable = none;
}

abbrev pub renew_columns : String → ℕ → ℕ → Bool → MailboxRow → MailboxRow
renew_columns history_id renewed_at watch_expires_at clear row =
    record (if clear then clear_last_error row else row) {
      watch_expiration_at = some watch_expires_at;
      watch_last_history_id = some history_id;
      watch_last_renewed_at = some renewed_at;
      watch_state = MailboxWatchState.active;
      updated_at = renewed_at;
    }

unfoldable pub complete_mailbox_watch_renewal :
    String → String → ℕ → ℕ → List MailboxRow → List MailboxRow
unfolding starts_with
complete_mailbox_watch_renewal mailbox_id history_id renewed_at watch_expires_at mailboxes =
    let clear = has_watch_error (find? (mailbox_is mailbox_id) mailboxes) in
    update_where (mailbox_is mailbox_id)
      (renew_columns history_id renewed_at watch_expires_at clear) mailboxes

abbrev pub fail_columns : ℕ → ProblemDetails → Option ℕ → MailboxRow → MailboxRow
fail_columns observed_at problem watch_expires_at row =
    record (apply_transition
      (transition_for_watch_renewal_failure observed_at problem watch_expires_at) row) {
        updated_at = observed_at;
      }

unfoldable pub fail_mailbox_watch_renewal :
    String → ℕ → ProblemDetails → List MailboxRow → List MailboxRow
fail_mailbox_watch_renewal mailbox_id observed_at problem mailboxes =
    let expires = expiration_of (find? (mailbox_is mailbox_id) mailboxes) in
    update_where (mailbox_is mailbox_id) (fail_columns observed_at problem expires) mailboxes
