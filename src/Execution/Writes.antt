-- ===== src/Execution/Writes.antt =====
-- Every statement that writes the lease of a mailbox, as one step: the calls of Lease/Calls, the
-- commit of packages/db/src/persistence/mailbox-sync-commit.ts, and the update by which
-- completeConnectSession of connect-sessions.ts beside it reconnects a mailbox that is there.
use mailmon.Base.{ℕ, String, Bool, List, [], ◌∷◌}
use mailmon.Base.Table.{update_where}
use mailmon.Commit.{apply_mailbox_sync_commit}
use mailmon.Commit.State.{Commit, CommitTables}
use mailmon.Connect.{reconnect_columns}
use mailmon.Connect.Tables.{ConnectSessionRow}
use mailmon.Lease.Calls.{LeaseCall, step}
use mailmon.Schema.{SyncTables, mailbox_is}

pub data LeaseWrite : Type 0 where
  calls : LeaseCall → LeaseWrite
  commits : (now : ℕ) → Commit → LeaseWrite
  reconnects :
      (session : ConnectSessionRow) (email : String) (connected_at : ℕ) (mailbox_id : String)
      → LeaseWrite

abbrev pub with_sync : CommitTables → SyncTables → CommitTables
with_sync db sync = record db { sync = sync }

abbrev pub reconnected_mailboxes : ConnectSessionRow → String → ℕ → String → SyncTables → SyncTables
reconnected_mailboxes session email at mailbox_id sync = record sync {
  mailboxes =
      update_where (mailbox_is mailbox_id) (reconnect_columns session email at) sync.mailboxes;
}

module _ (text_before : String → String → Bool) (sha256_hex : String → String) where
  unfoldable pub write : LeaseWrite → CommitTables → CommitTables
  unfolding step apply_mailbox_sync_commit update_where
  write (calls call) db = with_sync db (step call db.sync)
  write (commits now commit) db = (apply_mailbox_sync_commit text_before sha256_hex now commit db).1
  write (reconnects session email at mailbox_id) db =
      with_sync db (reconnected_mailboxes session email at mailbox_id db.sync)

  unfoldable pub run_writes : List LeaseWrite → CommitTables → CommitTables
  unfolding write
  run_writes [] db = db
  run_writes (w ∷ writes) db = run_writes writes (write w db)
