-- ===== src/Lease.antt =====
-- packages/db/src/persistence/mailbox-sync-coordinator.ts: the lease that lets one worker at a time
-- sync a mailbox, and the record of an exhausted dispatch.
pub mod Recovery
pub mod Calls
mod Held
pub mod Exclusion
pub mod Grant
use mailmon.Base.{
  ℕ, String, Bool, true, false, Option, none, some, List, ◌∷◌, ◌++◌, [], leb, ltb, ◌==◌, is_text,
  ◌&&◌, if◌then◌else◌,
}
use mailmon.Base.Table.{find?, update_where}
use mailmon.Contracts.{SyncRunOutcome}
use mailmon.OperationalState.{transition_for_dispatch_retry_exhausted}
use mailmon.OperationalState.Update.{apply_transition}
use mailmon.Schema.{
  MailboxRow, SyncRunRow, SyncRunStatus, SyncTables, mailbox_is, sync_run_is, without_lease,
}

pub record LeaseRequest : Type 0 where
  pub mailbox_id : String
  pub sync_run_id : String
  pub lease_owner_id : String
  pub acquired_at : ℕ
  pub expires_at : ℕ

-- MailboxSyncLeaseAcquisition
pub record LeaseAcquisition : Type 0 where
  pub acquired : Bool
  pub expires_at : Option ℕ
  pub lease_owner_id : Option String

pub record RenewalRequest : Type 0 where
  pub mailbox_id : String
  pub lease_owner_id : String
  pub heartbeat_at : ℕ
  pub expires_at : ℕ

-- MailboxSyncLeaseRenewal
pub record LeaseRenewal : Type 0 where
  pub renewed : Bool
  pub expires_at : Option ℕ

-- or(isNull(expiresAt), lte(expiresAt, at))
abbrev pub lease_is_over : ℕ → Option ℕ → Bool
lease_is_over at none = true
lease_is_over at (some expires_at) = leb expires_at at

-- gt(expiresAt, at)
abbrev pub lease_runs : ℕ → Option ℕ → Bool
lease_runs at none = false
lease_runs at (some expires_at) = ltb at expires_at

-- The columns that an acquisition sets.
abbrev pub take_lease : LeaseRequest → MailboxRow → MailboxRow
take_lease lease row = record row {
  active_sync_lease_acquired_at = some lease.acquired_at;
  active_sync_lease_expires_at = some lease.expires_at;
  active_sync_lease_heartbeat_at = some lease.acquired_at;
  active_sync_lease_owner = some lease.lease_owner_id;
  active_sync_run_id = some lease.sync_run_id;
  updated_at = lease.acquired_at;
}

abbrev pub can_take : LeaseRequest → MailboxRow → Bool
can_take lease row =
    mailbox_is lease.mailbox_id row
    && lease_is_over lease.acquired_at row.active_sync_lease_expires_at

abbrev refused : Option MailboxRow → LeaseAcquisition
refused none = record { acquired = false; expires_at = none; lease_owner_id = none }
refused (some row) = record {
  acquired = false;
  expires_at = row.active_sync_lease_expires_at;
  lease_owner_id = row.active_sync_lease_owner;
}

unfoldable pub acquire_mailbox_sync_lease :
    LeaseRequest → SyncTables → LeaseAcquisition × SyncTables
acquire_mailbox_sync_lease lease db = elim (find? (can_take lease) db.mailboxes) [
  | none ↦ (refused (find? (mailbox_is lease.mailbox_id) db.mailboxes), db)
  | some updated ↦ (
    record {
      acquired = true;
      expires_at = some lease.expires_at;
      lease_owner_id = some lease.lease_owner_id;
    },
    record {
      mailboxes = update_where (can_take lease) (take_lease lease) db.mailboxes;
      sync_runs =
          update_where (sync_run_is lease.sync_run_id)
            (λ run. record run { lease_owner_id = some lease.lease_owner_id }) db.sync_runs;
    },
  )
]

abbrev pub can_renew : RenewalRequest → MailboxRow → Bool
can_renew lease row =
    mailbox_is lease.mailbox_id row
    && (is_text row.active_sync_lease_owner lease.lease_owner_id
        && lease_runs lease.heartbeat_at row.active_sync_lease_expires_at)

abbrev pub extend_lease : RenewalRequest → MailboxRow → MailboxRow
extend_lease lease row = record row {
  active_sync_lease_expires_at = some lease.expires_at;
  active_sync_lease_heartbeat_at = some lease.heartbeat_at;
  updated_at = lease.heartbeat_at;
}

abbrev lease_expiry : Option MailboxRow → Option ℕ
lease_expiry none = none
lease_expiry (some row) = row.active_sync_lease_expires_at

unfoldable pub renew_mailbox_sync_lease : RenewalRequest → SyncTables → LeaseRenewal × SyncTables
renew_mailbox_sync_lease lease db = elim (find? (can_renew lease) db.mailboxes) [
  | none ↦ (
    record {
      renewed = false;
      expires_at = lease_expiry (find? (mailbox_is lease.mailbox_id) db.mailboxes);
    },
    db,
  )
  | some updated ↦ (
    record { renewed = true; expires_at = some lease.expires_at },
    record db { mailboxes = update_where (can_renew lease) (extend_lease lease) db.mailboxes },
  )
]

abbrev pub can_release : String → String → MailboxRow → Bool
can_release mailbox_id lease_owner_id row =
    mailbox_is mailbox_id row && is_text row.active_sync_lease_owner lease_owner_id

-- `now` is the clock of the database call (`new Date()`).
unfoldable pub release_mailbox_sync_lease : ℕ → String → String → SyncTables → SyncTables
release_mailbox_sync_lease now mailbox_id lease_owner_id db = record db {
  mailboxes =
      update_where (can_release mailbox_id lease_owner_id)
        (λ row. record (without_lease row) { updated_at = now }) db.mailboxes;
}

-- MailboxSyncDispatchExhaustedResult: `recorded` names the run that was written.
pub data DispatchExhausted : Type 0 where
  mailbox_not_found : DispatchExhausted
  recorded : String → DispatchExhausted

abbrev exhausted_run : String → String → ℕ → Option String → SyncRunRow
exhausted_run sync_run_id mailbox_id recorded_at cursor = record {
  id = sync_run_id;
  mailbox_id = mailbox_id;
  status = SyncRunStatus.ended SyncRunOutcome.dispatch_retry_exhausted;
  lease_owner_id = none;
  started_at = recorded_at;
  completed_at = some recorded_at;
  events_emitted = some 0;
  previous_cursor = cursor;
  next_cursor = cursor;
  detail = some "mailbox_sync_dispatch_retry_exhausted";
}

abbrev pub exhaust_row : ℕ → MailboxRow → MailboxRow
exhaust_row recorded_at row =
    record (apply_transition (transition_for_dispatch_retry_exhausted recorded_at) row) {
      updated_at = recorded_at;
    }

unfoldable pub record_mailbox_sync_dispatch_exhausted :
    String → ℕ → String → SyncTables → DispatchExhausted × SyncTables
record_mailbox_sync_dispatch_exhausted mailbox_id recorded_at sync_run_id db =
    elim (find? (mailbox_is mailbox_id) db.mailboxes) [
      | none ↦ (mailbox_not_found, db)
      | some mailbox ↦ (
        recorded sync_run_id,
        record {
          sync_runs =
              db.sync_runs ++ exhausted_run sync_run_id mailbox_id recorded_at mailbox.cursor ∷ [];
          mailboxes = update_where (mailbox_is mailbox_id) (exhaust_row recorded_at) db.mailboxes;
        },
      )
    ]
