-- ===== src/Lease/Grant.antt =====
-- When the coordinator grants, renews and frees a lease.
use mathlib.Core.Option
use mailmon.Base.{
  if◌then◌else◌, ◌&&◌, ℕ, String, ◌≡◌, ◌⊎◌, inl, inr, refl, ◌∙◌, true, false, Option, some, arith,
  Option-cases, is_text, ltb, ◌==◌,
}
use mailmon.Base.Table.{
  update_where, keep_if, find?, find?-key_and, find?_sound, find?-update_where,
}
use mailmon.Schema.{MailboxRow, SyncTables, mailbox_is}
use mailmon.Lease.{
  LeaseRequest, RenewalRequest, lease_is_over, lease_runs, can_take, take_lease, can_renew,
  acquire_mailbox_sync_lease, renew_mailbox_sync_lease,
}
use mailmon.Lease.Calls.{held_by, MailboxIdsUnique}

module _ (lease : LeaseRequest) (db : SyncTables) (unique : MailboxIdsUnique db) where
  -- The search of an acquisition, once the mailbox's row is known.
  take-found :
      (o : Option MailboxRow)
      → find? (mailbox_is lease.mailbox_id) db.mailboxes ≡ o
      → find? (can_take lease) db.mailboxes
        ≡ keep_if (λ row. lease_is_over lease.acquired_at row.active_sync_lease_expires_at) o
  take-found o e =
      find?-key_and (λ (row : MailboxRow). row.id) lease.mailbox_id _ db.mailboxes unique ∙ rw e

  -- With unique mailbox ids, an acquisition is refused while anybody's lease on the mailbox lasts
  -- beyond its time: it changes nothing and names the holder.
  pub acquire-refused_while_held :
      (owner : String)
      → held_by lease.mailbox_id owner lease.acquired_at db ≡ true
      → ((acquire_mailbox_sync_lease lease db).0.acquired ≡ false)
        × ((acquire_mailbox_sync_lease lease db).0.lease_owner_id ≡ some owner)
        × ((acquire_mailbox_sync_lease lease db).1 ≡ db)
  unfolding acquire_mailbox_sync_lease
  acquire-refused_while_held owner held =
      elim (Option-cases (find? (mailbox_is lease.mailbox_id) db.mailboxes)) [
        | inl e ↦ ground (arith, e)
        | inr (row, e) ↦ ground (arith, e, take-found (some row) e)
      ]

  -- With unique mailbox ids, an acquisition on a mailbox whose lease is free or over gives the
  -- lease to the caller until `expires_at`, and to nobody at a time from then on.
  pub acquire-holds :
      (row : MailboxRow) (o : String) (at : ℕ)
      → find? (mailbox_is lease.mailbox_id) db.mailboxes ≡ some row
      → lease_is_over lease.acquired_at row.active_sync_lease_expires_at ≡ true
      → ((acquire_mailbox_sync_lease lease db).0.acquired ≡ true)
        × (held_by lease.mailbox_id o at (acquire_mailbox_sync_lease lease db).1
            ≡ (lease.lease_owner_id == o && ltb at lease.expires_at))
  unfolding acquire_mailbox_sync_lease
  acquire-holds row o at e over = (ground (arith, found), ground (arith, found, after, named))
    where
      found : find? (can_take lease) db.mailboxes ≡ some row
      found = take-found (some row) e ∙ ground arith

      after :
          find?
            (mailbox_is lease.mailbox_id)
            (update_where (can_take lease) (take_lease lease) db.mailboxes)
          ≡ Option.map
              (λ r. if can_take lease r then take_lease lease r else r)
              (find? (mailbox_is lease.mailbox_id) db.mailboxes)
      after =
          find?-update_where (can_take lease) (mailbox_is lease.mailbox_id) (take_lease lease)
            db.mailboxes (λ r. refl)

      named : mailbox_is lease.mailbox_id row ≡ true
      named = find?_sound (mailbox_is lease.mailbox_id) db.mailboxes row e

module _ (lease : RenewalRequest) (db : SyncTables) (unique : MailboxIdsUnique db) where
  -- With unique mailbox ids, a heartbeat is renewed exactly when its worker still holds a lease that
  -- lasts beyond the heartbeat, and a heartbeat that is not renewed changes nothing.
  pub renewed-eq-held_by :
      ((renew_mailbox_sync_lease lease db).0.renewed
        ≡ held_by lease.mailbox_id lease.lease_owner_id lease.heartbeat_at db)
      × (((renew_mailbox_sync_lease lease db).0.renewed ≡ true)
          ⊎ ((renew_mailbox_sync_lease lease db).1 ≡ db))
  unfolding renew_mailbox_sync_lease
  renewed-eq-held_by = elim (Option-cases (find? (mailbox_is lease.mailbox_id) db.mailboxes)) [
    | inl e ↦ ground (arith, e, search_row)
    | inr (row, e) ↦ ground (arith, e, search_row)
  ]
    where
      search_row :
          find? (can_renew lease) db.mailboxes
          ≡ keep_if
              (λ row.
                is_text row.active_sync_lease_owner lease.lease_owner_id
                && lease_runs lease.heartbeat_at row.active_sync_lease_expires_at)
              (find? (mailbox_is lease.mailbox_id) db.mailboxes)
      search_row =
          find?-key_and (λ (row : MailboxRow). row.id) lease.mailbox_id _ db.mailboxes unique
