-- ===== src/Connect/Sessions.antt =====
-- packages/core/src/mailbox-connect-sessions.ts: who may complete a connect session, and when. The
-- provider of the authorization is the parameter `authorize`, and what others do to the tables
-- while it is asked is the parameter `meanwhile`.
pub mod Expiry
use Prim.Native.String.{◌++◌ as append}
use mailmon.Base.{
  ℕ, ◌+◌, ◌*◌, String, Bool, true, false, Option, none, some, List, [], ◌∷◌, ◌==◌, is_text, leb,
  ◌&&◌, if◌then◌else◌,
}
use mailmon.Base.Table.{find?}
use mailmon.Connect.{create_connect_session, get_connect_session, complete_connect_session}
use mailmon.Connect.Tables.{
  ConnectSessionRow, ConnectTables, CreateSessionParams, CompleteSessionParams,
  CompletedMailboxConnectSession, Completion, encryption_failed, crashed, completed,
}
use mailmon.Contracts.{ProblemDetails}
use mailmon.Schema.{MailboxRow, mailbox_is}

abbrev pub default_connect_session_ttl_ms : ℕ
default_connect_session_ttl_ms = 15 * 60000

-- CreateConnectSessionRequest
pub record CreateConnectSessionRequest : Type 0 where
  pub provider : String
  pub tenant_external_id : String
  pub mailbox_external_id : String
  pub redirect_url : String

-- `id` and `code_verifier` are new random texts.
abbrev pub session_params :
    String → String → String → ℕ → CreateConnectSessionRequest → CreateSessionParams
session_params id code_verifier workspace_id created_at request = record {
  id = id;
  provider = request.provider;
  workspace_id = workspace_id;
  tenant_external_id = request.tenant_external_id;
  mailbox_external_id = request.mailbox_external_id;
  redirect_url = request.redirect_url;
  code_verifier = code_verifier;
  expires_at = created_at + default_connect_session_ttl_ms;
}

-- The session of the resource that is returned; its URL is built from the id.
unfoldable pub create_mailbox_connect_session :
    String
    → String
    → String
    → ℕ
    → CreateConnectSessionRequest
    → ConnectTables
    → ConnectSessionRow × ConnectTables
unfolding create_connect_session
create_mailbox_connect_session id code_verifier workspace_id created_at request db =
    create_connect_session created_at
      (session_params id code_verifier workspace_id created_at request) db

abbrev pub connect_session_not_found : String → ProblemDetails
connect_session_not_found id = record {
  code = "connect_session_not_found";
  status = 404;
  detail = append "Connect session " (append id " does not exist in the current workspace.");
  retryable = false;
}

abbrev pub connect_session_expired : String → ProblemDetails
connect_session_expired id = record {
  code = "connect_session_expired";
  status = 410;
  detail = append "Connect session " (append id " has expired and can no longer be used.");
  retryable = false;
}

abbrev connected_mailbox_not_found : String → ProblemDetails
connected_mailbox_not_found id = record {
  code = "mailbox_not_found";
  status = 404;
  detail = append "Mailbox " (append id " does not exist in the current workspace.");
  retryable = false;
}

abbrev credential_encryption_failed : ProblemDetails
credential_encryption_failed = record {
  code = "gmail_mailbox_credential_encryption_failed";
  status = 500;
  detail = "Persisting the Gmail refresh token securely failed.";
  retryable = false;
}

abbrev is_null : Option ℕ → Bool
is_null none = true
is_null (some at) = false

unfoldable pub is_connect_session_expired : ConnectSessionRow → ℕ → Bool
is_connect_session_expired session observed_at =
    is_null session.completed_at && leb session.expires_at observed_at

-- What the provider answers to the code of the authorization.
pub data Authorization : Type 0 where
  authorized : (provider_account_email refresh_token : String) → Authorization
  declined : ProblemDetails → Authorization

-- `died` is a defect: of the store, or of the dispatcher.
pub data SessionAnswer : Type 0 where
  died : SessionAnswer
  failed : ProblemDetails → SessionAnswer
  connected : CompletedMailboxConnectSession → SessionAnswer

-- The answer, the mailboxes whose sync was dispatched, and the tables.
pub record SessionLeft : Type 0 where
  pub answer : SessionAnswer
  pub sent : List String
  pub tables : ConnectTables

abbrev pub failing : ProblemDetails → ConnectTables → SessionLeft
failing problem db = record { answer = failed problem; sent = []; tables = db }

module _ (encrypt : String → Option String) (trim_lower : String → String)
    (authorize : ConnectSessionRow → Authorization) (meanwhile : ConnectTables → ConnectTables)
    (accepts : String → Bool) where
  -- yield* dispatcher.dispatchMailboxSync(mailbox.id), and the result
  abbrev dispatch_connected : CompletedMailboxConnectSession → ConnectTables → SessionLeft
  dispatch_connected result db =
      if accepts result.mailbox.id
      then record { answer = connected result; sent = result.mailbox.id ∷ []; tables = db }
      else record { answer = died; sent = []; tables = db }

  abbrev previous_result : ConnectSessionRow → MailboxRow → CompletedMailboxConnectSession
  previous_result session mailbox = record {
    mailbox = mailbox;
    redirect_url = session.redirect_url;
    created = false;
  }

  abbrev previous_mailbox :
      ConnectSessionRow → String → ConnectTables → Option MailboxRow → SessionLeft
  previous_mailbox session mailbox_id db none = failing (connected_mailbox_not_found mailbox_id) db
  previous_mailbox session mailbox_id db (some mailbox) =
      if is_null mailbox.initialized_at
      then dispatch_connected (previous_result session mailbox) db
      else record { answer = connected (previous_result session mailbox); sent = []; tables = db }

  unfoldable pub complete_previously_connected_mailbox_session :
      ConnectSessionRow → ConnectTables → SessionLeft
  complete_previously_connected_mailbox_session session db = elim session.mailbox_id [
    | none ↦ failing (connect_session_not_found session.id) db
    | some mailbox_id ↦ previous_mailbox session mailbox_id db (
        find? (λ row. mailbox_is mailbox_id row && is_text row.workspace_id session.workspace_id)
          db.mailboxes)
  ]

  abbrev settle_completion : Completion × ConnectTables → SessionLeft
  settle_completion (encryption_failed, db) = failing credential_encryption_failed db
  settle_completion (crashed, db) = record { answer = died; sent = []; tables = db }
  settle_completion (completed result, db) = dispatch_connected result db

  abbrev complete_authorized :
      String → ℕ → ConnectSessionRow → ConnectTables → Authorization → SessionLeft
  complete_authorized new_id completed_at session db (declined problem) = failing problem db
  complete_authorized new_id completed_at session db
        (authorized provider_account_email refresh_token) =
      settle_completion (
        complete_connect_session encrypt trim_lower new_id
          (record {
            connect_session_id = session.id;
            connected_at = completed_at;
            provider_account_email = provider_account_email;
            refresh_token = refresh_token;
          })
          db)

  abbrev complete_open : String → ℕ → ConnectSessionRow → ConnectTables → SessionLeft
  complete_open new_id completed_at session db =
      if is_connect_session_expired session completed_at
      then failing (connect_session_expired session.id) db
      else complete_authorized new_id completed_at session (meanwhile db) (authorize session)

  abbrev complete_found : String → ℕ → ConnectSessionRow → ConnectTables → SessionLeft
  complete_found new_id completed_at session db =
      if is_null session.completed_at
      then complete_open new_id completed_at session db
      else complete_previously_connected_mailbox_session session db

  -- `completed_at` is `new Date()`, and `new_id` the id of a mailbox that may be created.
  unfoldable pub complete_gmail_mailbox_connect_session :
      String → ℕ → String → ConnectTables → SessionLeft
  unfolding get_connect_session is_connect_session_expired complete_connect_session
      complete_previously_connected_mailbox_session
  complete_gmail_mailbox_connect_session new_id completed_at connect_session_id db =
      elim (get_connect_session connect_session_id db) [
        | none ↦ failing (connect_session_not_found connect_session_id) db
        | some session ↦ complete_found new_id completed_at session db
      ]
