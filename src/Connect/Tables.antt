-- ===== src/Connect/Tables.antt =====
-- The tables mailbox_connect_sessions and gmail_mailbox_credentials of packages/db/src/schema.ts, and
-- the requests and answers of the store of connect sessions.
use mailmon.Base.{ℕ, String, Bool, Option, List, ◌==◌}
use mailmon.Schema.{MailboxRow}

pub record ConnectSessionRow : Type 0 where
  pub id : String
  pub provider : String
  pub workspace_id : String
  pub tenant_external_id : String
  pub mailbox_external_id : String
  pub redirect_url : String
  pub code_verifier : String
  pub expires_at : ℕ
  pub mailbox_id : Option String
  pub completed_at : Option ℕ
  pub created_at : ℕ
  pub updated_at : ℕ

pub record CredentialRow : Type 0 where
  pub mailbox_id : String
  pub refresh_token_ciphertext : String
  pub created_at : ℕ
  pub updated_at : ℕ

pub record ConnectTables : Type 0 where
  pub sessions : List ConnectSessionRow
  pub mailboxes : List MailboxRow
  pub credentials : List CredentialRow

pub record CreateSessionParams : Type 0 where
  pub id : String
  pub provider : String
  pub workspace_id : String
  pub tenant_external_id : String
  pub mailbox_external_id : String
  pub redirect_url : String
  pub code_verifier : String
  pub expires_at : ℕ

pub record CompleteSessionParams : Type 0 where
  pub connect_session_id : String
  pub connected_at : ℕ
  pub provider_account_email : String
  pub refresh_token : String

-- CompletedMailboxConnectSession; the resource of the mailbox is its row.
pub record CompletedMailboxConnectSession : Type 0 where
  pub mailbox : MailboxRow
  pub redirect_url : String
  pub created : Bool

-- An exception that is no problem is `crashed`.
pub data Completion : Type 0 where
  encryption_failed crashed : Completion
  completed : CompletedMailboxConnectSession → Completion

abbrev pub session_is : String → ConnectSessionRow → Bool
session_is id row = row.id == id

abbrev pub credential_of : String → CredentialRow → Bool
credential_of mailbox_id row = row.mailbox_id == mailbox_id
