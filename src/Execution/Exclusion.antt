-- ===== src/Execution/Exclusion.antt =====
-- One worker at a time: nothing that another worker writes takes a running lease away.
use mailmon.Base.{
  ℕ, String, ◌≡◌, ◌≢◌, refl, sym, subst, inl, inr, true, List, [], ◌∷◌, All, arith, Option-cases,
  String_discrete, if◌then◌else◌, Bool,
}
use mathlib.Core.Option
use mailmon.Base.Table.{find?, find?_sound, find?-update_where, update_where-KeyUnique, KeyUnique}
use mailmon.Commit.Finalized.{finalized, finalized_mailbox}
use mailmon.Commit.Guarded.{commit_at, commit_cases}
use mailmon.Commit.State.{Commit, CommitTables, commit_mailbox}
use mailmon.Connect.{reconnect_columns}
use mailmon.Execution.Writes.{LeaseWrite, calls, commits, reconnects, write, run_writes}
use mailmon.Lease.Calls.{held_by, held_row, MailboxIdsUnique, step-MailboxIdsUnique}
use mailmon.Lease.Exclusion.{Foreign, step-held_by}
use mailmon.Schema.{MailboxRow, SyncTables, mailbox_is}

-- A write that is not made for `owner`: a call of another worker, or one that names no time after
-- `at` for the lease to be over, a commit of another worker, or the reconnection of another mailbox.
abbrev pub ForeignWrite : String → String → ℕ → LeaseWrite → Type 0
ForeignWrite mailbox_id owner at (calls call) = Foreign owner at call
ForeignWrite mailbox_id owner at (commits now commit) = commit.lease_owner_id ≢ owner
ForeignWrite mailbox_id owner at (reconnects session email connected_at id) = id ≢ mailbox_id

module _ (text_before : String → String → Bool) (sha256_hex : String → String) where
  write-MailboxIdsUnique :
      (w : LeaseWrite) (db : CommitTables)
      → MailboxIdsUnique db.sync
      → MailboxIdsUnique (write text_before sha256_hex w db).sync
  unfolding write
  write-MailboxIdsUnique (calls call) db unique = step-MailboxIdsUnique call db.sync unique
  write-MailboxIdsUnique (commits now commit) db unique =
      elim (commit_cases text_before sha256_hex now commit db) [
        | inl (idle, same) ↦ rw same unique
        | inr (row, found, inl (idle, same)) ↦ rw same unique
        | inr (row, found, inr (guard, forward, wrote, done)) ↦
            subst (λ rows. KeyUnique (λ (r : MailboxRow). r.id) rows)
              (sym (finalized commit _ row db.sync _ done.0).0)
              (update_where-KeyUnique (λ (r : MailboxRow). r.id) (mailbox_is commit.mailbox_id)
                (commit_mailbox commit row.initialized_at) db.sync.mailboxes (λ r. refl) unique)
      ]
  write-MailboxIdsUnique (reconnects session email at id) db unique =
      update_where-KeyUnique (λ (r : MailboxRow). r.id) (mailbox_is id)
        (reconnect_columns session email at) db.sync.mailboxes (λ r. refl) unique

  module _ (mailbox_id owner : String) (at : ℕ) where
    -- A row that another worker's commit, or the reconnection of another mailbox, does not touch.
    untouched :
        (id : String) (f : MailboxRow → MailboxRow) (sync : SyncTables)
        → id ≢ mailbox_id
        → held_by mailbox_id owner at sync ≡ true
        → held_row owner at (
            Option.map
              (λ r. if mailbox_is id r then f r else r)
              (find? (mailbox_is mailbox_id) sync.mailboxes))
          ≡ true
    untouched id f sync other held =
        elim (Option-cases (find? (mailbox_is mailbox_id) sync.mailboxes)) [
          | inl e ↦ absurd (ground (arith, rw e at held))
          | inr (r, e) ↦ rw e (
              ground (
                arith,
                rw e at held,
                other,
                find?_sound (mailbox_is mailbox_id) sync.mailboxes r e,
              ))
        ]

    commit-held_by :
        (now : ℕ) (commit : Commit) (db : CommitTables)
        → commit.lease_owner_id ≢ owner
        → held_by mailbox_id owner at db.sync ≡ true
        → held_by mailbox_id owner at (commit_at text_before sha256_hex now commit db).1.sync ≡ true
    commit-held_by now commit db other held =
        elim (commit_cases text_before sha256_hex now commit db) [
          | inl (idle, same) ↦ rw same held
          | inr (row, found, inl (idle, same)) ↦ rw same held
          | inr (row, found, inr (guard, forward, wrote, done)) ↦
              elim (String_discrete commit.mailbox_id mailbox_id) [
                | yes same ↦ absurd (ground (arith, guard, other, rw (sym same) at held, found))
                | no apart ↦ rw (finalized_mailbox commit _ row db.sync _ done.0 mailbox_id) (
                    untouched commit.mailbox_id (commit_mailbox commit row.initialized_at) db.sync
                      apart held)
              ]
        ]

    write-held_by :
        (w : LeaseWrite) (db : CommitTables)
        → MailboxIdsUnique db.sync
        → ForeignWrite mailbox_id owner at w
        → held_by mailbox_id owner at db.sync ≡ true
        → held_by mailbox_id owner at (write text_before sha256_hex w db).sync ≡ true
    unfolding write
    write-held_by (calls call) db unique foreign held =
        step-held_by mailbox_id owner at call db.sync unique foreign held
    write-held_by (commits now commit) db unique foreign held =
        commit-held_by now commit db foreign held
    write-held_by (reconnects session email connected_at id) db unique foreign held =
        rw
          (find?-update_where (mailbox_is id) (mailbox_is mailbox_id)
            (reconnect_columns session email connected_at) db.sync.mailboxes (λ r. refl))
          (untouched id (reconnect_columns session email connected_at) db.sync foreign held)

    -- With unique mailbox ids, a lease that lasts beyond a time survives every sequence of the writes
    -- of leases (the calls of the coordinator, of the recovery and of the run records, commits, and
    -- reconnections) in which only other workers renew, release and commit, nobody acquires or
    -- recovers at a later time, and no connect session reconnects the mailbox.
    pub run_writes-held_by :
        (writes : List LeaseWrite) (db : CommitTables)
        → MailboxIdsUnique db.sync
        → All (ForeignWrite mailbox_id owner at) writes
        → held_by mailbox_id owner at db.sync ≡ true
        → held_by mailbox_id owner at (run_writes text_before sha256_hex writes db).sync ≡ true
    unfolding run_writes
    run_writes-held_by [] db unique foreign held = held
    run_writes-held_by (w ∷ writes) db unique (foreign, later) held =
        run_writes-held_by writes (write text_before sha256_hex w db)
          (write-MailboxIdsUnique w db unique) later (write-held_by w db unique foreign held)
