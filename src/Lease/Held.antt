-- ===== src/Lease/Held.antt =====
-- Each call, on its own, keeps the lease of another worker.
use mathlib.Core.Option
use mailmon.Base.{
  ℕ, ◌≤◌, String, ◌≡◌, ◌≢◌, inl, inr, refl, Bool, true, Option, none, some, List, arith, Bool-cases,
  String_discrete, Option-cases, if◌then◌else◌,
}
use mailmon.Base.Table.{KeyUnique, find?_sound, find?, update_where, find?-update_where}
use mailmon.Contracts.{CompletedSyncRun}
use mailmon.Schema.{MailboxRow, SyncTables, mailbox_is, without_lease}
use mailmon.SyncRuns.{leaves_mailbox, complete_sync_run}
use mailmon.Lease.{
  LeaseRequest, RenewalRequest, can_take, take_lease, can_renew, extend_lease, can_release,
  acquire_mailbox_sync_lease, renew_mailbox_sync_lease, release_mailbox_sync_lease,
  record_mailbox_sync_dispatch_exhausted, exhaust_row,
}
use mailmon.OperationalState.Update.{apply_transition, apply_completed_sync_run}
use mailmon.Lease.Recovery.{
  recover_finds, can_recover, recover_row, recover_stuck_mailbox_sync_execution,
}
use mailmon.Lease.Calls.{row_held, held_row, held_by}

abbrev Kept : String → ℕ → MailboxRow → MailboxRow → Type 0
Kept owner at row row' = row_held owner at row ≡ true → row_held owner at row' ≡ true

-- An update keeps a lease when it keeps it on each row that it touches.
module _ (mailbox_id owner : String) (at : ℕ) where
  held_row-map :
      (g : MailboxRow → MailboxRow) (o : Option MailboxRow)
      → ((row : MailboxRow) → o ≡ some row → Kept owner at row (g row))
      → held_row owner at o ≡ true
      → held_row owner at (Option.map g o) ≡ true
  held_row-map g none each held = held
  held_row-map g (some row) each held = each row refl held

  held-update_where :
      (p : MailboxRow → Bool) (f : MailboxRow → MailboxRow) (rows : List MailboxRow)
      → ((row : MailboxRow) → mailbox_is mailbox_id (f row) ≡ mailbox_is mailbox_id row)
      → ((row : MailboxRow)
          → find? (mailbox_is mailbox_id) rows ≡ some row
          → Kept owner at row (if p row then f row else row))
      → held_row owner at (find? (mailbox_is mailbox_id) rows) ≡ true
      → held_row owner at (find? (mailbox_is mailbox_id) (update_where p f rows)) ≡ true
  held-update_where p f rows keep each held =
      rw (find?-update_where p (mailbox_is mailbox_id) f rows keep)
        (held_row-map _ (find? (mailbox_is mailbox_id) rows) each held)

  pub held-acquire :
      (lease : LeaseRequest) (db : SyncTables)
      → lease.acquired_at ≤ at
      → held_by mailbox_id owner at db ≡ true
      → held_by mailbox_id owner at (acquire_mailbox_sync_lease lease db).1 ≡ true
  unfolding acquire_mailbox_sync_lease
  held-acquire lease db before held = elim (Option-cases (find? (can_take lease) db.mailboxes)) [
    | inl e ↦ rw (e, acquire_mailbox_sync_lease) held
    | inr (row, e) ↦
        rw (e, acquire_mailbox_sync_lease)
          (held-update_where (can_take lease) (take_lease lease) db.mailboxes (λ row. refl)
            (λ row _. ground arith) held)
  ]

  pub held-renew :
      (lease : RenewalRequest) (db : SyncTables)
      → lease.lease_owner_id ≢ owner
      → held_by mailbox_id owner at db ≡ true
      → held_by mailbox_id owner at (renew_mailbox_sync_lease lease db).1 ≡ true
  unfolding renew_mailbox_sync_lease
  held-renew lease db other held = elim (Option-cases (find? (can_renew lease) db.mailboxes)) [
    | inl e ↦ rw (e, renew_mailbox_sync_lease) held
    | inr (row, e) ↦
        rw (e, renew_mailbox_sync_lease)
          (held-update_where (can_renew lease) (extend_lease lease) db.mailboxes (λ row. refl)
            (λ row _. ground arith) held)
  ]

  pub held-release :
      (now : ℕ) (id other : String) (db : SyncTables)
      → other ≢ owner
      → held_by mailbox_id owner at db ≡ true
      → held_by mailbox_id owner at (release_mailbox_sync_lease now id other db) ≡ true
  unfolding release_mailbox_sync_lease
  held-release now id other db ne held =
      held-update_where (can_release id other)
        (λ row. record (without_lease row) { updated_at = now }) db.mailboxes (λ row. refl)
        (λ row _. ground arith) held

  pub held-recover :
      (id : String) (observed_at : ℕ) (run : Option String) (db : SyncTables)
      → KeyUnique (λ (row : MailboxRow). row.id) db.mailboxes
      → observed_at ≤ at
      → held_by mailbox_id owner at db ≡ true
      → held_by mailbox_id owner at (recover_stuck_mailbox_sync_execution id observed_at run db).1
        ≡ true
  unfolding recover_stuck_mailbox_sync_execution apply_transition
  held-recover id observed_at run db unique before held =
      elim (Option-cases (find? (can_recover id observed_at run) db.mailboxes)) [
        | inl e ↦ rw (e, recover_stuck_mailbox_sync_execution) held
        | inr (victim, e) ↦
            rw (e, recover_stuck_mailbox_sync_execution)
              (held-update_where (mailbox_is id) (recover_row observed_at) db.mailboxes
                (λ row. refl) (λ row found. spared victim row e found) held)
      ]
    where
      spared :
          (victim row : MailboxRow)
          → find? (can_recover id observed_at run) db.mailboxes ≡ some victim
          → find? (mailbox_is mailbox_id) db.mailboxes ≡ some row
          → Kept owner at row (if mailbox_is id row then recover_row observed_at row else row)
      spared victim row e found h = elim (String_discrete mailbox_id id) [
        | yes same ↦
            ground (
              arith,
              recover_finds id observed_at run db.mailboxes victim unique e,
              rw same at found,
            )
        | no other ↦ ground (arith, find?_sound (mailbox_is mailbox_id) db.mailboxes row found)
      ]

  pub held-exhaust :
      (id : String) (recorded_at : ℕ) (run : String) (db : SyncTables)
      → held_by mailbox_id owner at db ≡ true
      → held_by mailbox_id owner at (record_mailbox_sync_dispatch_exhausted id recorded_at run db).1
        ≡ true
  unfolding record_mailbox_sync_dispatch_exhausted apply_transition
  held-exhaust id recorded_at run db held =
      elim (Option-cases (find? (mailbox_is id) db.mailboxes)) [
        | inl e ↦ rw (e, record_mailbox_sync_dispatch_exhausted) held
        | inr (row, e) ↦
            rw (e, record_mailbox_sync_dispatch_exhausted)
              (held-update_where (mailbox_is id) (exhaust_row recorded_at) db.mailboxes
                (λ row. refl) (λ row _. ground arith) held)
      ]

  pub held-complete_sync_run :
      (result : CompletedSyncRun) (db : SyncTables)
      → held_by mailbox_id owner at db ≡ true
      → held_by mailbox_id owner at (complete_sync_run result db) ≡ true
  unfolding complete_sync_run
  held-complete_sync_run result db held =
      elim (Bool-cases (leaves_mailbox result.status result.detail)) [
        | inl e ↦ rw (e, complete_sync_run) held
        | inr e ↦
            rw (e, complete_sync_run)
              (held-update_where (mailbox_is result.mailbox_id) (apply_completed_sync_run result)
                db.mailboxes (λ row. ground arith) (λ row _. ground arith) held)
      ]
