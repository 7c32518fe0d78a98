-- ===== src/Connect/Completed.antt =====
-- What the completion of a connect session leaves in the tables.
use mathlib.Core.Option
use mailmon.Base.{◌==◌, ◌||◌, is_text, length, ◌≤◌, ◌&&◌, ℕ, String, ◌≡◌, Bool, Option, none, some}
use mailmon.Base.Table.{select_where, find?, KeyUnique}
use mailmon.Connect.Tables.{
  ConnectSessionRow, CredentialRow, ConnectTables, CompleteSessionParams, session_is, credential_of,
}
use mailmon.Contracts.{MailboxStatus}
use mailmon.Schema.{MailboxRow, mailbox_is}

-- The session is completed at that time with the mailbox, which is active and leased to no worker, and whose
-- stored refresh token is the ciphertext.
abbrev pub Connected : ConnectSessionRow → String → ℕ → MailboxRow → ConnectTables → Type 0
Connected session ciphertext at mailbox db =
    (find? (session_is session.id) db.sessions
      ≡ some (record session {
        mailbox_id = some mailbox.id;
        completed_at = some at;
        updated_at = at;
      }))
    × (find? (mailbox_is mailbox.id) db.mailboxes ≡ some mailbox)
    × (mailbox.status ≡ MailboxStatus.active)
    × (mailbox.active_sync_lease_owner ≡ none)
    × (Option.map (λ (c : CredentialRow). c.refresh_token_ciphertext)
          (find? (credential_of mailbox.id) db.credentials)
        ≡ some ciphertext)

-- The mailbox is one of the session's workspace and provider, and has the address or the session's
-- external ids.
abbrev pub has_account : ConnectSessionRow → String → MailboxRow → Bool
has_account session email row =
    is_text row.workspace_id session.workspace_id
    && (row.provider == session.provider
        && (row.email_address == email
            || is_text row.tenant_external_id session.tenant_external_id
              && is_text row.mailbox_external_id session.mailbox_external_id))

module _ (encrypt : String → Option String) (trim_lower : String → String) where
  -- At most one mailbox has the address or the external ids of the session.
  abbrev pub OneAccount : CompleteSessionParams → ConnectSessionRow → ConnectTables → Type 0
  OneAccount params session db =
      length
        (select_where (has_account session (trim_lower params.provider_account_email)) db.mailboxes)
      ≤ 1

  -- Ids are unique, and a new id names no mailbox and no credential.
  abbrev pub Ready : String → ConnectTables → Type 0
  Ready new_id db =
      KeyUnique (λ (row : MailboxRow). row.id) db.mailboxes
      × (find? (mailbox_is new_id) db.mailboxes ≡ none)
      × (find? (credential_of new_id) db.credentials ≡ none)
