-- ===== src/Maintenance/Repairs.antt =====
-- packages/db/src/persistence/mailbox-repair-store.ts and repairMailboxes of
-- packages/core/src/mailbox-repair.ts: a mailbox whose history cursor Gmail refused starts again
-- without one, and a mailbox whose watch failed is synced.
pub mod Resets
use mailmon.Base.{
  ℕ, String, Bool, true, false, ◌&&◌, ◌||◌, not, Option, none, some, List, [], ◌∷◌, leb, ◌==◌,
  is_text, if◌then◌else◌, length, take,
}
use mailmon.Base.Passes.{Left, for_each}
use mailmon.Base.Queries.{select_sorted}
use mailmon.Base.Table.{find?, update_where, select_where}
use mailmon.Contracts.{MailboxSyncState, MailboxWatchState}
use mailmon.Lease.{lease_is_over}
use mailmon.Maintenance.Columns.{ordered_by}
use mailmon.Maintenance.Watches.{is_active}
use mailmon.Schema.{MailboxRow, mailbox_is}

-- DEFAULT_MAILBOX_REPAIR_BATCH_SIZE
abbrev default_mailbox_repair_batch_size : ℕ
default_mailbox_repair_batch_size = 100

pub data RepairReason : Type 0 where
  invalid_cursor watch_expired watch_unhealthy : RepairReason

-- MailboxRepairTarget
pub record MailboxRepairTarget : Type 0 where
  pub mailbox : MailboxRow
  pub reason : RepairReason
  pub requires_cursor_reset : Bool

pub record RepairOutcome : Type 0 where
  pub dispatched : Bool
  pub reset_cursor : Bool

-- RepairMailboxesResult
pub record RepairMailboxesResult : Type 0 where
  pub completed_at : ℕ
  pub cursor_resets : ℕ
  pub dispatched : ℕ
  pub scanned : ℕ

abbrev pub has_invalid_cursor : MailboxRow → Bool
has_invalid_cursor row = is_text row.last_error_code "gmail_history_cursor_invalid"

-- eq(watchState, "expired"), or eq(watchState, "unhealthy")
abbrev watch_failed : MailboxWatchState → Bool
watch_failed MailboxWatchState.expired = true
watch_failed MailboxWatchState.unhealthy = true
watch_failed _ = false

abbrev reason_of : Bool → MailboxWatchState → RepairReason
reason_of true state = invalid_cursor
reason_of false MailboxWatchState.expired = watch_expired
reason_of false _ = watch_unhealthy

abbrev requires_reset : RepairReason → Bool
requires_reset invalid_cursor = true
requires_reset _ = false

unfoldable pub to_mailbox_repair_target : MailboxRow → MailboxRepairTarget
to_mailbox_repair_target row =
    let reason = reason_of (has_invalid_cursor row) row.watch_state in
    record { mailbox = row; reason = reason; requires_cursor_reset = requires_reset reason }

abbrev pub needs_repair : ℕ → MailboxRow → Bool
needs_repair observed_at row =
    row.provider == "gmail"
    && (is_active row.status
        && ((has_invalid_cursor row || watch_failed row.watch_state)
            && lease_is_over observed_at row.active_sync_lease_expires_at))

-- desc(CASE WHEN lastErrorCode = 'gmail_history_cursor_invalid' THEN 1 ELSE 0 END),
-- asc(lastErrorOccurredAt), asc(watchExpirationAt), asc(id)
abbrev repair_leq : (String → String → Bool) → MailboxRow → MailboxRow → Bool
repair_leq text_before a b =
    let rest =
      ordered_by a.last_error_occurred_at b.last_error_occurred_at
        (ordered_by a.watch_expiration_at b.watch_expiration_at (text_before a.id b.id)) in
    if has_invalid_cursor a
    then (if has_invalid_cursor b then rest else true)
    else (if has_invalid_cursor b then false else rest)

unfoldable pub list_mailboxes_needing_repair :
    (String → String → Bool) → ℕ → ℕ → List MailboxRow → List MailboxRow
unfolding take select_sorted
list_mailboxes_needing_repair text_before limit observed_at mailboxes =
    take limit (select_sorted (repair_leq text_before) (needs_repair observed_at) mailboxes)

abbrev pub prepare_columns : ℕ → Bool → MailboxRow → MailboxRow
prepare_columns observed_at reset_cursor row = record row {
  cursor = if reset_cursor then none else row.cursor;
  sync_state = MailboxSyncState.lagging;
  updated_at = observed_at;
}

abbrev pub repairable : String → MailboxRow → Bool
repairable mailbox_id row = mailbox_is mailbox_id row && is_active row.status

abbrev is_found : Option MailboxRow → Bool
is_found none = false
is_found (some row) = true

unfoldable pub prepare_mailbox_for_repair :
    String → ℕ → Bool → List MailboxRow → Bool × List MailboxRow
prepare_mailbox_for_repair mailbox_id observed_at reset_cursor mailboxes = (
  is_found (find? (repairable mailbox_id) mailboxes),
  update_where (repairable mailbox_id) (prepare_columns observed_at reset_cursor) mailboxes,
)

-- outcomes.filter(p).length
unfoldable pub count_repairs : (RepairOutcome → Bool) → List RepairOutcome → ℕ
unfolding select_where
count_repairs p outcomes = length (select_where p outcomes)

abbrev repair_result_of : ℕ → List MailboxRow → List RepairOutcome → RepairMailboxesResult
repair_result_of observed_at targets prepared = record {
  completed_at = observed_at;
  cursor_resets = count_repairs (λ item. item.reset_cursor) prepared;
  dispatched = count_repairs (λ item. item.dispatched) prepared;
  scanned = length targets;
}

module _ (text_before : String → String → Bool) (accepts : String → Bool) where
  abbrev pub dispatch_repair :
      MailboxRepairTarget → Bool × List MailboxRow → Left (List MailboxRow) String RepairOutcome
  dispatch_repair target (false, mailboxes) = record {
    answer = some record { dispatched = false; reset_cursor = false };
    sent = [];
    state = mailboxes;
  }
  dispatch_repair target (true, mailboxes) =
      if accepts target.mailbox.id
      then record {
        answer = some record { dispatched = true; reset_cursor = target.requires_cursor_reset };
        sent = target.mailbox.id ∷ [];
        state = mailboxes;
      }
      else record { answer = none; sent = []; state = mailboxes }

  unfoldable pub repair_mailbox :
      ℕ → MailboxRow → List MailboxRow → Left (List MailboxRow) String RepairOutcome
  unfolding prepare_mailbox_for_repair to_mailbox_repair_target
  repair_mailbox observed_at row mailboxes =
      let target = to_mailbox_repair_target row in
      dispatch_repair target (
        prepare_mailbox_for_repair target.mailbox.id observed_at target.requires_cursor_reset
          mailboxes)

  unfoldable pub repair_mailboxes :
      ℕ → ℕ → List MailboxRow → Left (List MailboxRow) String RepairMailboxesResult
  unfolding repair_mailbox for_each list_mailboxes_needing_repair count_repairs
  repair_mailboxes limit observed_at mailboxes =
      let targets = list_mailboxes_needing_repair text_before limit observed_at mailboxes in
      let left = for_each (repair_mailbox observed_at) targets mailboxes in
      record {
        answer = elim left.answer [
          | none ↦ none
          | some prepared ↦ some (repair_result_of observed_at targets prepared)
        ];
        sent = left.sent;
        state = left.state;
      }
