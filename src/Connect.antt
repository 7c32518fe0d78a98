-- ===== src/Connect.antt =====
-- packages/db/src/persistence/connect-sessions.ts: a connect session, which a user completes to
-- connect a Gmail mailbox. The cipher of refresh tokens and the text functions trim and toLowerCase
-- are parameters.
pub mod Tables
pub mod Completed
pub mod Conflict
pub mod Sessions
use mailmon.Base.{
  ℕ, String, Bool, true, false, not, ◌&&◌, ◌||◌, Option, none, some, List, [], ◌∷◌, ◌++◌, ◌==◌,
  is_text,
}
use mailmon.Base.Table.{find?, update_where, upsert}
use mailmon.Connect.Tables.{
  ConnectSessionRow, CredentialRow, ConnectTables, CreateSessionParams, CompleteSessionParams,
  CompletedMailboxConnectSession, Completion, encryption_failed, crashed, completed, session_is,
  credential_of,
}
use mailmon.Contracts.{MailboxStatus, MailboxSyncState, MailboxWatchState}
use mailmon.Schema.{MailboxRow, mailbox_is, without_lease}

-- A new row has neither a mailbox nor a completion; `now` is the default of its timestamps.
abbrev pub new_session : ℕ → CreateSessionParams → ConnectSessionRow
new_session now params = record {
  id = params.id;
  provider = params.provider;
  workspace_id = params.workspace_id;
  tenant_external_id = params.tenant_external_id;
  mailbox_external_id = params.mailbox_external_id;
  redirect_url = params.redirect_url;
  code_verifier = params.code_verifier;
  expires_at = params.expires_at;
  mailbox_id = none;
  completed_at = none;
  created_at = now;
  updated_at = now;
}

unfoldable pub create_connect_session :
    ℕ → CreateSessionParams → ConnectTables → ConnectSessionRow × ConnectTables
create_connect_session now params db =
    (new_session now params, record db { sessions = db.sessions ++ new_session now params ∷ [] })

unfoldable pub get_connect_session : String → ConnectTables → Option ConnectSessionRow
get_connect_session id db = find? (session_is id) db.sessions

-- The mailbox of the session's workspace and provider with this address or these external ids.
abbrev pub same_account : ConnectSessionRow → String → MailboxRow → Bool
same_account session email row =
    is_text row.workspace_id session.workspace_id
    && (row.provider == session.provider
        && (row.email_address == email
            || is_text row.tenant_external_id session.tenant_external_id
              && is_text row.mailbox_external_id session.mailbox_external_id))

-- Another row that has the address or the external ids which a reconnection gives the mailbox `id`:
-- the unique constraints of mailboxes refuse the update then.
abbrev pub clashes : ConnectSessionRow → String → String → MailboxRow → Bool
clashes session email id row = not (mailbox_is id row) && same_account session email row

-- The columns that a reconnection sets. The cursor is not among them.
abbrev pub reconnect_columns : ConnectSessionRow → String → ℕ → MailboxRow → MailboxRow
reconnect_columns session email connected_at row = record (without_lease row) {
  email_address = email;
  last_error_code = none;
  last_error_message = none;
  last_error_occurred_at = none;
  last_error_retryable = none;
  mailbox_external_id = some session.mailbox_external_id;
  status = MailboxStatus.active;
  sync_state = MailboxSyncState.initializing;
  tenant_external_id = some session.tenant_external_id;
  updated_at = connected_at;
  watch_expiration_at = none;
  watch_last_renewed_at = none;
  watch_state = MailboxWatchState.expired;
}

abbrev pub new_mailbox : String → ConnectSessionRow → String → ℕ → MailboxRow
new_mailbox id session email connected_at = record {
  id = id;
  workspace_id = some session.workspace_id;
  provider = session.provider;
  tenant_external_id = some session.tenant_external_id;
  mailbox_external_id = some session.mailbox_external_id;
  email_address = email;
  status = MailboxStatus.active;
  sync_state = MailboxSyncState.initializing;
  watch_state = MailboxWatchState.expired;
  watch_expiration_at = none;
  watch_last_renewed_at = none;
  watch_last_history_id = none;
  cursor = none;
  active_sync_lease_owner = none;
  active_sync_lease_acquired_at = none;
  active_sync_lease_heartbeat_at = none;
  active_sync_lease_expires_at = none;
  active_sync_run_id = none;
  initialized_at = none;
  last_successful_sync_at = none;
  last_error_code = none;
  last_error_message = none;
  last_error_occurred_at = none;
  last_error_retryable = none;
  created_at = connected_at;
  updated_at = connected_at;
}

abbrev pub new_credential : String → String → ℕ → CredentialRow
new_credential mailbox_id ciphertext at = record {
  mailbox_id = mailbox_id;
  refresh_token_ciphertext = ciphertext;
  created_at = at;
  updated_at = at;
}

abbrev pub replace_token : String → ℕ → CredentialRow → CredentialRow
replace_token ciphertext at row = record row {
  refresh_token_ciphertext = ciphertext;
  updated_at = at;
}

abbrev pub finish_session : String → ℕ → ConnectSessionRow → ConnectSessionRow
finish_session mailbox_id at row = record row {
  mailbox_id = some mailbox_id;
  completed_at = some at;
  updated_at = at;
}

abbrev pub completed_with : MailboxRow → ConnectSessionRow → Bool → Completion
completed_with mailbox session was_created =
    completed
      record { mailbox = mailbox; redirect_url = session.redirect_url; created = was_created }

module _ (encrypt : String → Option String) (trim_lower : String → String) where
  -- normalizeEmailAddress
  abbrev normalize_email_address : String → String
  normalize_email_address email = trim_lower email

  -- The part of the transaction for a session without a mailbox; `new_id` is a new random id.
  unfoldable pub connect_mailbox :
      String
      → String
      → CompleteSessionParams
      → ConnectSessionRow
      → ConnectTables
      → Completion × ConnectTables
  connect_mailbox new_id ciphertext params session db =
      let email = normalize_email_address params.provider_account_email in
      let at = params.connected_at in
      elim (find? (same_account session email) db.mailboxes) [
        | some existing ↦ elim (find? (clashes session email existing.id) db.mailboxes) [
          | some other ↦ (crashed, db)
          | none ↦ (
            completed_with (reconnect_columns session email at existing) session false,
            record {
              mailboxes =
                  update_where (mailbox_is existing.id) (reconnect_columns session email at)
                    db.mailboxes;
              credentials =
                  upsert (credential_of existing.id) (new_credential existing.id ciphertext at)
                    (replace_token ciphertext at) db.credentials;
              sessions =
                  update_where (session_is session.id) (finish_session existing.id at) db.sessions;
            },
          )
        ]
        | none ↦ (
          completed_with (new_mailbox new_id session email at) session true,
          record {
            mailboxes = db.mailboxes ++ new_mailbox new_id session email at ∷ [];
            credentials = db.credentials ++ new_credential new_id ciphertext at ∷ [];
            sessions = update_where (session_is session.id) (finish_session new_id at) db.sessions;
          },
        )
      ]

  abbrev connected_before : ConnectSessionRow → Option MailboxRow → Completion
  connected_before session none = crashed
  connected_before session (some mailbox) = completed_with mailbox session false

  unfoldable pub complete_in_transaction :
      String → String → CompleteSessionParams → ConnectTables → Completion × ConnectTables
  unfolding connect_mailbox
  complete_in_transaction new_id ciphertext params db =
      elim (find? (session_is params.connect_session_id) db.sessions) [
        | none ↦ (crashed, db)
        | some session ↦ elim session.mailbox_id [
          | some mailbox_id ↦
              (connected_before session (find? (mailbox_is mailbox_id) db.mailboxes), db)
          | none ↦ connect_mailbox new_id ciphertext params session db
        ]
      ]

  unfoldable pub complete_connect_session :
      String → CompleteSessionParams → ConnectTables → Completion × ConnectTables
  unfolding complete_in_transaction
  complete_connect_session new_id params db = elim (encrypt params.refresh_token) [
    | none ↦ (encryption_failed, db)
    | some ciphertext ↦ complete_in_transaction new_id ciphertext params db
  ]
