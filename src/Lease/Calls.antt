-- ===== src/Lease/Calls.antt =====
-- The calls of the coordinator, of the recovery and of the run records, which write a mailbox's lease
-- or its runs, as one step on the tables.
use mailmon.Base.{
  ℕ, String, ◌≡◌, inl, inr, refl, Bool, false, Option, none, some, List, ◌&&◌, arith, Bool-cases,
  is_text, Option-cases,
}
use mailmon.Base.Table.{update_where-KeyUnique, KeyUnique, find?, update_where}
use mailmon.Contracts.{CompletedSyncRun}
use mailmon.Schema.{MailboxRow, SyncTables, mailbox_is}
use mailmon.SyncRuns.{leaves_mailbox, start_sync_run, complete_sync_run}
use mailmon.Lease.{
  LeaseRequest, RenewalRequest, lease_runs, can_take, take_lease, can_renew, extend_lease,
  can_release, acquire_mailbox_sync_lease, renew_mailbox_sync_lease, release_mailbox_sync_lease,
  record_mailbox_sync_dispatch_exhausted, exhaust_row,
}
use mailmon.OperationalState.Update.{apply_transition, apply_completed_sync_run}
use mailmon.Lease.Recovery.{can_recover, recover_row, recover_stuck_mailbox_sync_execution}

-- A commit and the reconnection of a mailbox write the lease, too: see Execution/Writes.
pub data LeaseCall : Type 0 where
  acquires : LeaseRequest → LeaseCall
  renews : RenewalRequest → LeaseCall
  releases : ℕ → String → String → LeaseCall
  recovers : String → ℕ → Option String → LeaseCall
  exhausts : String → ℕ → String → LeaseCall
  starts : String → ℕ → String → LeaseCall
  completes : CompletedSyncRun → LeaseCall

unfoldable pub step : LeaseCall → SyncTables → SyncTables
step (acquires lease) db = (acquire_mailbox_sync_lease lease db).1
step (renews lease) db = (renew_mailbox_sync_lease lease db).1
step (releases now mailbox_id owner) db = release_mailbox_sync_lease now mailbox_id owner db
step (recovers mailbox_id at run) db = (recover_stuck_mailbox_sync_execution mailbox_id at run db).1
step (exhausts mailbox_id at run) db =
    (record_mailbox_sync_dispatch_exhausted mailbox_id at run db).1
step (starts id now mailbox_id) db = (start_sync_run id now mailbox_id db).1
step (completes result) db = complete_sync_run result db

-- The row grants `owner` a lease that lasts beyond `at`.
abbrev pub row_held : String → ℕ → MailboxRow → Bool
row_held owner at row =
    is_text row.active_sync_lease_owner owner && lease_runs at row.active_sync_lease_expires_at

abbrev pub held_row : String → ℕ → Option MailboxRow → Bool
held_row owner at none = false
held_row owner at (some row) = row_held owner at row

-- `owner` holds the lease of the mailbox beyond `at`.
abbrev pub held_by : String → String → ℕ → SyncTables → Bool
held_by mailbox_id owner at db = held_row owner at (find? (mailbox_is mailbox_id) db.mailboxes)

abbrev pub MailboxIdsUnique : SyncTables → Type 0
MailboxIdsUnique db = KeyUnique (λ (row : MailboxRow). row.id) db.mailboxes

unique-update :
    (p : MailboxRow → Bool) (f : MailboxRow → MailboxRow) (rows : List MailboxRow)
    → ((row : MailboxRow) → (f row).id ≡ row.id)
    → KeyUnique (λ (row : MailboxRow). row.id) rows
    → KeyUnique (λ (row : MailboxRow). row.id) (update_where p f rows)
unique-update p f rows = update_where-KeyUnique (λ (row : MailboxRow). row.id) p f rows

-- No call of the coordinator, of the recovery or of the run records changes a mailbox's id.
pub step-MailboxIdsUnique :
    (call : LeaseCall) (db : SyncTables) → MailboxIdsUnique db → MailboxIdsUnique (step call db)
unfolding step acquire_mailbox_sync_lease renew_mailbox_sync_lease release_mailbox_sync_lease
    recover_stuck_mailbox_sync_execution record_mailbox_sync_dispatch_exhausted start_sync_run
    complete_sync_run apply_transition
step-MailboxIdsUnique (acquires lease) db u =
    elim (Option-cases (find? (can_take lease) db.mailboxes)) [
      | inl e ↦ rw (e, step, acquire_mailbox_sync_lease) u
      | inr (row, e) ↦
          rw (e, step, acquire_mailbox_sync_lease)
            (unique-update (can_take lease) (take_lease lease) db.mailboxes (λ row. refl) u)
    ]
step-MailboxIdsUnique (renews lease) db u =
    elim (Option-cases (find? (can_renew lease) db.mailboxes)) [
      | inl e ↦ rw (e, step, renew_mailbox_sync_lease) u
      | inr (row, e) ↦
          rw (e, step, renew_mailbox_sync_lease)
            (unique-update (can_renew lease) (extend_lease lease) db.mailboxes (λ row. refl) u)
    ]
step-MailboxIdsUnique (releases now id owner) db u =
    unique-update (can_release id owner) _ db.mailboxes (λ row. refl) u
step-MailboxIdsUnique (recovers id at run) db u =
    elim (Option-cases (find? (can_recover id at run) db.mailboxes)) [
      | inl e ↦ rw (e, step, recover_stuck_mailbox_sync_execution) u
      | inr (row, e) ↦
          rw (e, step, recover_stuck_mailbox_sync_execution)
            (unique-update (mailbox_is id) (recover_row at) db.mailboxes (λ row. refl) u)
    ]
step-MailboxIdsUnique (exhausts id at run) db u =
    elim (Option-cases (find? (mailbox_is id) db.mailboxes)) [
      | inl e ↦ rw (e, step, record_mailbox_sync_dispatch_exhausted) u
      | inr (row, e) ↦
          rw (e, step, record_mailbox_sync_dispatch_exhausted)
            (unique-update (mailbox_is id) (exhaust_row at) db.mailboxes (λ row. refl) u)
    ]
step-MailboxIdsUnique (starts id now mailbox_id) db u = u
step-MailboxIdsUnique (completes result) db u =
    elim (Bool-cases (leaves_mailbox result.status result.detail)) [
      | inl e ↦ rw (e, step, complete_sync_run) u
      | inr e ↦
          rw (e, step, complete_sync_run)
            (unique-update (mailbox_is result.mailbox_id) (apply_completed_sync_run result)
              db.mailboxes (λ row. unfold apply_completed_sync_run in ground arith) u)
    ]
