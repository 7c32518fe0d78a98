-- ===== src/Connect/Sessions/Expiry.antt =====
-- A connect session can be used for a quarter of an hour.
use mailmon.Base.{ℕ, ◌+◌, Bool, String, ◌≡◌, Option, none, arith, ==_refl}
use mailmon.Base.Table.{find?, find?-appended}
use mailmon.Connect.{new_session, create_connect_session, get_connect_session}
use mailmon.Connect.Sessions.{
  CreateConnectSessionRequest, create_mailbox_connect_session,
  complete_gmail_mailbox_connect_session, session_params, Authorization,
  default_connect_session_ttl_ms, failing, connect_session_expired, is_connect_session_expired,
}
use mailmon.Connect.Tables.{ConnectSessionRow, ConnectTables, session_is}

module _ (encrypt : String → Option String) (trim_lower : String → String)
    (authorize : ConnectSessionRow → Authorization) (meanwhile : ConnectTables → ConnectTables)
    (accepts : String → Bool) where
  -- A session that was created under a new id, and that nobody touched since, cannot be completed
  -- 15 minutes after its creation or later: whatever the provider would answer, the call fails with
  -- connect_session_expired, changes nothing and dispatches no sync.
  pub complete-expired :
      (id code_verifier workspace_id new_id : String) (created_at wait : ℕ)
      (request : CreateConnectSessionRequest) (db : ConnectTables)
      → find? (session_is id) db.sessions ≡ none
      → complete_gmail_mailbox_connect_session encrypt trim_lower authorize meanwhile accepts new_id
          (created_at + default_connect_session_ttl_ms + wait)
          id
          (create_mailbox_connect_session id code_verifier workspace_id created_at request db).1
        ≡ failing
            (connect_session_expired id)
            (create_mailbox_connect_session id code_verifier workspace_id created_at request db).1
  unfolding complete_gmail_mailbox_connect_session create_mailbox_connect_session
      create_connect_session get_connect_session is_connect_session_expired
  complete-expired id code_verifier workspace_id new_id created_at wait request db fresh =
      rw
        (
          find?-appended (session_is id) db.sessions
              (new_session created_at
                (session_params id code_verifier workspace_id created_at request))
              fresh (==_refl id),
          complete_gmail_mailbox_connect_session,
          get_connect_session,
        )
        (ground arith)
