-- ===== src/Commit/Guarded.antt =====
-- What guards a commit: the lease of its worker, and the order of the mailbox's cursors.
use mailmon.Base.{
  ℕ, String, ◌≡◌, refl, ◌⊎◌, inl, inr, Bool, true, false, none, some, List, [], Option-cases,
  Bool-cases, length-map, map, length,
}
use mailmon.Base.Table.{find?}
use mailmon.Commit.{commit_to_row, write_rows, write_commit, apply_mailbox_sync_commit}
use mailmon.Commit.Events.{insert_mailbox_events}
use mailmon.Commit.Snapshot.{
  apply_message_deletions, apply_snapshot_messages, apply_snapshot_threads,
}
use mailmon.Commit.State.{
  CommitTables, Commit, CommitResult, committed, guard_active_lease, guard_cursor_progression,
  finalize_mailbox_sync_commit,
}
use mailmon.Contracts.{MailboxEventEnvelope}
use mailmon.Schema.{MailboxRow, mailbox_is}

abbrev pub is_applied : CommitResult → Bool
is_applied (committed applied ids) = applied
is_applied _ = false

abbrev pub event_ids : CommitResult → List String
event_ids (committed applied ids) = ids
event_ids _ = []

-- What a commit that writes leaves: the finalized mailbox and run, the messages, and its events.
abbrev pub Wrote : ℕ → Commit → MailboxRow → CommitTables → CommitResult × CommitTables → Type 0
Wrote now commit row db r =
    (finalize_mailbox_sync_commit commit (length (event_ids r.0)) row db.sync ≡ some r.1.sync)
    × (r.1.messages
        ≡ (apply_message_deletions commit.mailbox_id commit.snapshot.deleted_provider_message_ids
            (record db {
              threads =
                  apply_snapshot_threads now commit.mailbox_id commit.snapshot.threads db.threads;
              messages =
                  apply_snapshot_messages now commit.mailbox_id commit.snapshot.messages
                    db.messages;
            })).messages)
    × (events : List MailboxEventEnvelope) × (event_ids r.0
        ≡ map (λ (event : MailboxEventEnvelope). event.id) events)
    × (r.1.mailbox_events ≡ insert_mailbox_events events db.mailbox_events)

module _ (now : ℕ) (commit : Commit) (row : MailboxRow) (db : CommitTables) where
  -- Nothing was written, or all was.
  abbrev Written : CommitResult × CommitTables → Type 0
  Written r =
      ((is_applied r.0 ≡ false) × (r.1 ≡ db))
      ⊎ ((is_applied r.0 ≡ true) × Wrote now commit row db r)

  -- Nothing was written, or the row passed the guards and all was.
  abbrev pub Guarded : CommitResult × CommitTables → Type 0
  Guarded r =
      ((is_applied r.0 ≡ false) × (r.1 ≡ db))
      ⊎ ((guard_active_lease row commit.lease_owner_id now ≡ true)
          × (guard_cursor_progression commit row ≡ none)
          × (is_applied r.0 ≡ true)
          × Wrote now commit row db r)

module _ (text_before : String → String → Bool) (sha256_hex : String → String) where
  abbrev pub commit_at : ℕ → Commit → CommitTables → CommitResult × CommitTables
  commit_at = apply_mailbox_sync_commit text_before sha256_hex

  write_cases :
      (now : ℕ) (commit : Commit) (row : MailboxRow) (w t : String) (db : CommitTables)
      → Written now commit row db (write_commit text_before sha256_hex now commit row w t db)
  unfolding write_commit
  write_cases now commit row w t db =
      let (events, written) = write_rows text_before sha256_hex now commit w t db in
      elim (Option-cases (finalize_mailbox_sync_commit commit (length events) row db.sync)) [
        | inl e ↦ inl (rw (e, write_commit) refl, rw (e, write_commit) refl)
        | inr (sync, e) ↦ inr (
          rw (e, write_commit) refl,
          (
            rw (write_commit, e)
                (rw (length-map events (λ (event : MailboxEventEnvelope). event.id)) e),
            rw (write_commit, e) (unfold write_rows in refl),
            events,
            rw (write_commit, e) refl,
            rw (write_commit, e) (unfold write_rows in refl),
          ),
        )
      ]

  row_cases :
      (now : ℕ) (commit : Commit) (row : MailboxRow) (db : CommitTables)
      → Guarded now commit row db (commit_to_row text_before sha256_hex now commit row db)
  unfolding commit_to_row
  row_cases now commit row db =
      elim (Bool-cases (guard_active_lease row commit.lease_owner_id now)) [
        | inr g ↦ inl (rw (g, commit_to_row) (refl, refl))
        | inl g ↦ elim (Option-cases row.workspace_id) [
          | inl w ↦ inl (rw (g, w, commit_to_row) (refl, refl))
          | inr (w, ew) ↦ elim (Option-cases row.tenant_external_id) [
            | inl t ↦ inl (rw (g, ew, t, commit_to_row) (refl, refl))
            | inr (t, et) ↦ elim (Option-cases (guard_cursor_progression commit row)) [
              | inr (p, e) ↦ inl (rw (g, ew, et, e, commit_to_row) (refl, refl))
              | inl e ↦
                  rw (g, ew, et, e, commit_to_row)
                    (elim (write_cases now commit row w t db) [
                      | inl n ↦ inl n
                      | inr (a, f) ↦ inr (refl, refl, a, f)
                    ])
            ]
          ]
        ]
      ]

  -- A commit changes nothing, or it found the mailbox and passed its guards.
  pub commit_cases :
      (now : ℕ) (commit : Commit) (db : CommitTables)
      → ((is_applied (commit_at now commit db).0 ≡ false) × ((commit_at now commit db).1 ≡ db))
        ⊎ ((row : MailboxRow) × (find? (mailbox_is commit.mailbox_id) db.sync.mailboxes ≡ some row)
            × Guarded now commit row db (commit_at now commit db))
  unfolding apply_mailbox_sync_commit
  commit_cases now commit db =
      elim (Option-cases (find? (mailbox_is commit.mailbox_id) db.sync.mailboxes)) [
        | inl e ↦ inl (rw (e, apply_mailbox_sync_commit) (refl, refl))
        | inr (row, e) ↦
            inr (row, e, rw (e, apply_mailbox_sync_commit) (row_cases now commit row db))
      ]
