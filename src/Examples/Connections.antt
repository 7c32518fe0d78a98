-- ===== src/Examples/Connections.antt =====
-- A connect session of the example's mailbox.
use mailmon.Base.{
  arith, ℕ, ◌+◌, String, String_discrete, ◌≡◌, refl, true, Option, none, some, [], ◌∷◌,
}
use mailmon.Base.Table.{find?, select_where}
use mailmon.Connect.{complete_connect_session}
use mailmon.Connect.Conflict.{complete-conflicts}
use mailmon.Connect.Sessions.{
  CreateConnectSessionRequest, create_mailbox_connect_session,
  complete_gmail_mailbox_connect_session, Authorization, authorized, default_connect_session_ttl_ms,
  failing, connect_session_expired,
}
use mailmon.Connect.Sessions.Expiry.{complete-expired}
use mailmon.Connect.Tables.{crashed, ConnectSessionRow, ConnectTables, CompleteSessionParams}
use mailmon.Examples.Rows.{mailbox_row}

abbrev session_row : ConnectSessionRow
session_row = record {
  id = "s";
  provider = "gmail";
  workspace_id = "w";
  tenant_external_id = "t";
  mailbox_external_id = "x";
  redirect_url = "u";
  code_verifier = "v";
  expires_at = 900;
  mailbox_id = none;
  completed_at = none;
  created_at = 0;
  updated_at = 0;
}

abbrev connect_tables : ConnectTables
connect_tables = record {
  sessions = session_row ∷ [];
  mailboxes = mailbox_row ∷ [];
  credentials = [];
}

abbrev params : ℕ → String → CompleteSessionParams
params at token = record {
  connect_session_id = "s";
  connected_at = at;
  provider_account_email = "new@b.c";
  refresh_token = token;
}

abbrev encrypt : String → Option String
encrypt token = some token

abbrev trim_lower : String → String
trim_lower email = email

abbrev authorize : ConnectSessionRow → Authorization
authorize session = authorized "a@b.c" "r"

abbrev request : CreateConnectSessionRequest
request = record {
  provider = "gmail";
  tenant_external_id = "t";
  mailbox_external_id = "x";
  redirect_url = "u";
}

complete-expired_example :
    complete_gmail_mailbox_connect_session encrypt trim_lower authorize
      (λ db. db)
      (λ id. true)
      "n"
      (7 + default_connect_session_ttl_ms + 2)
      "s2"
      (create_mailbox_connect_session "s2" "v" "w" 7 request connect_tables).1
    ≡ failing
        (connect_session_expired "s2")
        (create_mailbox_connect_session "s2" "v" "w" 7 request connect_tables).1
unfolding find? String_discrete
complete-expired_example =
    complete-expired encrypt trim_lower authorize (λ db. db) (λ id. true) "s2" "v" "w" "n" 7 2
      request connect_tables refl

-- A mailbox with the new address, beside the one with the session's external ids.
abbrev two_accounts : ConnectTables
two_accounts = record connect_tables {
  mailboxes =
      mailbox_row
      ∷ record mailbox_row { id = "q"; mailbox_external_id = some "y"; email_address = "new@b.c" }
      ∷ [];
}

complete-conflicts_example :
    complete_connect_session encrypt trim_lower "n" (params 5 "r") two_accounts
    ≡ (crashed, two_accounts)
unfolding find? select_where String_discrete
complete-conflicts_example =
    complete-conflicts encrypt trim_lower "n" "r" (params 5 "r") session_row two_accounts refl refl
      refl (refl, (refl, tt)) (omega arith)
