-- ===== src/Execution/Once.antt =====
-- A commit is applied once: a mailbox that is committed has no lease until somebody acquires one.
use mailmon.Base.{
  ℕ, String, ◌≡◌, ◌≢◌, refl, inl, inr, Bool, true, false, Option, none, some, List, [], ◌∷◌, All,
  arith, Option-cases, Bool-cases, if◌then◌else◌,
}
use mathlib.Core.Option
use mailmon.Base.Table.{find?, find?_sound, find?-update_where, update_where}
use mailmon.Commit.Fencing.{commit-unheld}
use mailmon.Commit.Finalized.{finalized_mailbox, finalized_self}
use mailmon.Commit.Guarded.{commit_at, commit_cases, is_applied}
use mailmon.Commit.State.{Commit, CommitTables, committed}
use mailmon.Connect.{reconnect_columns}
use mailmon.Execution.Writes.{LeaseWrite, calls, commits, reconnects, write, run_writes}
use mailmon.Lease.{
  can_take, take_lease, can_renew, extend_lease, can_release, acquire_mailbox_sync_lease,
  renew_mailbox_sync_lease, release_mailbox_sync_lease, record_mailbox_sync_dispatch_exhausted,
  exhaust_row,
}
use mailmon.Lease.Calls.{
  LeaseCall, acquires, renews, releases, recovers, exhausts, starts, completes, step, held_by,
}
use mailmon.Lease.Recovery.{can_recover, recover_row, recover_stuck_mailbox_sync_execution}
use mailmon.OperationalState.Update.{apply_transition, apply_completed_sync_run}
use mailmon.Schema.{MailboxRow, SyncTables, mailbox_is, without_lease}
use mailmon.SyncRuns.{leaves_mailbox, start_sync_run, complete_sync_run}

-- No worker is named as the owner of the lease.
abbrev unowned_row : MailboxRow → Bool
unowned_row row = elim row.active_sync_lease_owner [ none ↦ true | some owner ↦ false ]

abbrev unowned : Option MailboxRow → Bool
unowned none = true
unowned (some row) = unowned_row row

-- A write that acquires no lease on the mailbox.
abbrev pub NoAcquisition : String → LeaseWrite → Type 0
NoAcquisition mailbox_id (calls (acquires lease)) = lease.mailbox_id ≢ mailbox_id
NoAcquisition mailbox_id _ = Unit

module _ (mailbox_id : String) where
  abbrev unowned_in : SyncTables → Bool
  unowned_in sync = unowned (find? (mailbox_is mailbox_id) sync.mailboxes)

  unowned-map :
      (g : MailboxRow → MailboxRow) (o : Option MailboxRow)
      → ((row : MailboxRow) → o ≡ some row → unowned_row row ≡ true → unowned_row (g row) ≡ true)
      → unowned o ≡ true
      → unowned (Option.map g o) ≡ true
  unowned-map g none each u = u
  unowned-map g (some row) each u = each row refl u

  unowned-update_where :
      (p : MailboxRow → Bool) (f : MailboxRow → MailboxRow) (rows : List MailboxRow)
      → ((row : MailboxRow) → mailbox_is mailbox_id (f row) ≡ mailbox_is mailbox_id row)
      → ((row : MailboxRow)
          → find? (mailbox_is mailbox_id) rows ≡ some row
          → unowned_row row ≡ true
          → unowned_row (if p row then f row else row) ≡ true)
      → unowned (find? (mailbox_is mailbox_id) rows) ≡ true
      → unowned (find? (mailbox_is mailbox_id) (update_where p f rows)) ≡ true
  unowned-update_where p f rows keep each u =
      rw (find?-update_where p (mailbox_is mailbox_id) f rows keep)
        (unowned-map _ (find? (mailbox_is mailbox_id) rows) each u)

  step-unowned :
      (call : LeaseCall) (sync : SyncTables)
      → NoAcquisition mailbox_id (calls call)
      → unowned_in sync ≡ true
      → unowned_in (step call sync) ≡ true
  unfolding step acquire_mailbox_sync_lease renew_mailbox_sync_lease release_mailbox_sync_lease
      recover_stuck_mailbox_sync_execution record_mailbox_sync_dispatch_exhausted start_sync_run
      complete_sync_run apply_transition
  step-unowned (acquires lease) sync other u =
      elim (Option-cases (find? (can_take lease) sync.mailboxes)) [
        | inl e ↦ rw (e, step, acquire_mailbox_sync_lease) u
        | inr (row, e) ↦
            rw (e, step, acquire_mailbox_sync_lease)
              (unowned-update_where (can_take lease) (take_lease lease) sync.mailboxes (λ r. refl)
                (λ r here free.
                  ground
                    (arith, free, other, find?_sound (mailbox_is mailbox_id) sync.mailboxes r here))
                u)
      ]
  step-unowned (renews lease) sync _ u =
      elim (Option-cases (find? (can_renew lease) sync.mailboxes)) [
        | inl e ↦ rw (e, step, renew_mailbox_sync_lease) u
        | inr (row, e) ↦
            rw (e, step, renew_mailbox_sync_lease)
              (unowned-update_where (can_renew lease) (extend_lease lease) sync.mailboxes
                (λ r. refl) (λ r here free. ground (arith, free)) u)
      ]
  step-unowned (releases now id owner) sync _ u =
      unowned-update_where (can_release id owner)
        (λ row. record (without_lease row) { updated_at = now }) sync.mailboxes (λ r. refl)
        (λ r here free. ground (arith, free)) u
  step-unowned (recovers id at run) sync _ u =
      elim (Option-cases (find? (can_recover id at run) sync.mailboxes)) [
        | inl e ↦ rw (e, step, recover_stuck_mailbox_sync_execution) u
        | inr (row, e) ↦
            rw (e, step, recover_stuck_mailbox_sync_execution)
              (unowned-update_where (mailbox_is id) (recover_row at) sync.mailboxes (λ r. refl)
                (λ r here free. ground (arith, free)) u)
      ]
  step-unowned (exhausts id at run) sync _ u =
      elim (Option-cases (find? (mailbox_is id) sync.mailboxes)) [
        | inl e ↦ rw (e, step, record_mailbox_sync_dispatch_exhausted) u
        | inr (row, e) ↦
            rw (e, step, record_mailbox_sync_dispatch_exhausted)
              (unowned-update_where (mailbox_is id) (exhaust_row at) sync.mailboxes (λ r. refl)
                (λ r here free. ground (arith, free)) u)
      ]
  step-unowned (starts id now name) sync _ u = u
  step-unowned (completes result) sync _ u =
      elim (Bool-cases (leaves_mailbox result.status result.detail)) [
        | inl e ↦ rw (e, step, complete_sync_run) u
        | inr e ↦
            rw (e, step, complete_sync_run)
              (unowned-update_where (mailbox_is result.mailbox_id) (apply_completed_sync_run result)
                sync.mailboxes (λ row. unfold apply_completed_sync_run in ground arith)
                (λ r here free. unfold apply_completed_sync_run in ground (arith, free)) u)
      ]

  unowned-held_by :
      (owner : String) (at : ℕ) (sync : SyncTables)
      → unowned_in sync ≡ true
      → held_by mailbox_id owner at sync ≡ false
  unowned-held_by owner at sync u =
      elim (Option-cases (find? (mailbox_is mailbox_id) sync.mailboxes)) [
        | inl e ↦ rw e refl
        | inr (row, e) ↦ rw e (ground (arith, rw e at u))
      ]

module _ (text_before : String → String → Bool) (sha256_hex : String → String) where
  committed-unowned :
      (now : ℕ) (commit : Commit) (db : CommitTables)
      → is_applied (commit_at text_before sha256_hex now commit db).0 ≡ true
      → unowned_in commit.mailbox_id (commit_at text_before sha256_hex now commit db).1.sync ≡ true
  committed-unowned now commit db applied =
      elim (commit_cases text_before sha256_hex now commit db) [
        | inl (idle, same) ↦ absurd (ground (arith, applied, idle))
        | inr (row, found, inl (idle, same)) ↦ absurd (ground (arith, applied, idle))
        | inr (row, found, inr (guard, forward, wrote, done)) ↦
            rw (finalized_self commit _ row db.sync _ done.0 found) refl
      ]

  write-unowned :
      (mailbox_id : String) (w : LeaseWrite) (db : CommitTables)
      → NoAcquisition mailbox_id w
      → unowned_in mailbox_id db.sync ≡ true
      → unowned_in mailbox_id (write text_before sha256_hex w db).sync ≡ true
  unfolding write
  write-unowned mailbox_id (calls call) db other u = step-unowned mailbox_id call db.sync other u
  write-unowned mailbox_id (commits now commit) db _ u =
      elim (commit_cases text_before sha256_hex now commit db) [
        | inl (idle, same) ↦ rw same u
        | inr (row, found, inl (idle, same)) ↦ rw same u
        | inr (row, found, inr (guard, forward, wrote, done)) ↦
            rw (finalized_mailbox commit _ row db.sync _ done.0 mailbox_id) (
              unowned-map mailbox_id _ (find? (mailbox_is mailbox_id) db.sync.mailboxes)
                (λ r here free. ground (arith, free)) u)
      ]
  write-unowned mailbox_id (reconnects session email at id) db _ u =
      unowned-update_where mailbox_id (mailbox_is id) (reconnect_columns session email at)
        db.sync.mailboxes (λ r. refl) (λ r here free. ground (arith, free)) u

  run_writes-unowned :
      (mailbox_id : String) (writes : List LeaseWrite) (db : CommitTables)
      → All (NoAcquisition mailbox_id) writes
      → unowned_in mailbox_id db.sync ≡ true
      → unowned_in mailbox_id (run_writes text_before sha256_hex writes db).sync ≡ true
  unfolding run_writes
  run_writes-unowned mailbox_id [] db _ u = u
  run_writes-unowned mailbox_id (w ∷ writes) db (other, later) u =
      run_writes-unowned mailbox_id writes (write text_before sha256_hex w db) later
        (write-unowned mailbox_id w db other u)

  -- After a commit that is applied, and any writes of leases none of which acquires the mailbox's,
  -- no commit on the mailbox is applied, whoever makes it and whenever, a repetition of the first
  -- included: it writes nothing and emits nothing.
  pub commit-once :
      (now later : ℕ) (commit again : Commit) (writes : List LeaseWrite) (db : CommitTables)
      → again.mailbox_id ≡ commit.mailbox_id
      → All (NoAcquisition commit.mailbox_id) writes
      → is_applied (commit_at text_before sha256_hex now commit db).0 ≡ true
      → let after =
          run_writes text_before sha256_hex writes
            (commit_at text_before sha256_hex now commit db).1 in
        commit_at text_before sha256_hex later again after ≡ (committed false [], after)
  commit-once now later commit again writes db same idle applied =
      let done = (commit_at text_before sha256_hex now commit db).1 in
      let after = run_writes text_before sha256_hex writes done in
      commit-unheld text_before sha256_hex later again after (
        rw same (
          unowned-held_by commit.mailbox_id again.lease_owner_id later after.sync (
            run_writes-unowned commit.mailbox_id writes done idle
              (committed-unowned now commit db applied))))
