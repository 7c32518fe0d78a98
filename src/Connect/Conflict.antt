-- ===== src/Connect/Conflict.antt =====
-- A session whose account is that of two mailboxes: the address is one's, the external ids are the
-- other's.
use mailmon.Base.{
  subst, ◌<◌, String, ◌≡◌, refl, Bool, not, ◌&&◌, ==_refl, Option, none, some, List, [], ◌∷◌, arith,
  length, inl, inr, Bool-cases, Option-cases,
}
use mailmon.Base.Table.{find?, select_where, KeyUnique}
use mailmon.Connect.{
  same_account, connect_mailbox, complete_in_transaction, complete_connect_session,
}
use mailmon.Connect.Tables.{
  ConnectSessionRow, ConnectTables, CompleteSessionParams, crashed, session_is,
}
use mailmon.Connect.Completed.{has_account}
use mailmon.Schema.{MailboxRow, mailbox_is}

others_found :
    (p : MailboxRow → Bool) (id : String) (rows : List MailboxRow)
    → find? (mailbox_is id) rows ≡ none
    → 0 < length (select_where p rows)
    → (other : MailboxRow) × (find? (λ row. not (mailbox_is id row) && p row) rows ≡ some other)
unfolding find? select_where
others_found p id [] absent some_pass = absurd (omega (arith, some_pass))
others_found p id (x ∷ rows) absent some_pass = elim (Bool-cases (mailbox_is id x)) [
  | inl here ↦ absurd (ground (arith, rw here at absent))
  | inr apart ↦ elim (Bool-cases (p x)) [
    | inl hit ↦ (x, rw (apart, hit) refl)
    | inr miss ↦
        rw (apart, miss) (others_found p id rows (rw apart at absent) (rw miss at some_pass))
  ]
]

same_id : (x row : MailboxRow) → some x ≡ some row → x.id ≡ row.id
same_id x row e = ground (arith, e)

second_found :
    (p : MailboxRow → Bool) (rows : List MailboxRow) (row : MailboxRow)
    → KeyUnique (λ (r : MailboxRow). r.id) rows
    → 1 < length (select_where p rows)
    → find? p rows ≡ some row
    → (other : MailboxRow) × (find? (λ r. not (mailbox_is row.id r) && p r) rows ≡ some other)
unfolding find? select_where
second_found p [] row unique two e = absurd (omega (arith, two))
second_found p (x ∷ rows) row (first, rest) two e = elim (Bool-cases (p x)) [
  | inl hit ↦
      subst
        (λ id.
          (other : MailboxRow) × (find? (λ r. not (mailbox_is id r) && p r) (x ∷ rows)
            ≡ some other))
        (same_id x row (rw hit at e))
        (rw (==_refl x.id) (others_found p x.id rows first (ground (arith, rw hit at two))))
  | inr miss ↦
      let (other, found) = second_found p rows row rest (rw miss at two) (rw miss at e) in
      (other, ground (arith, miss, found))
]

none_pass :
    (p : MailboxRow → Bool) (rows : List MailboxRow)
    → find? p rows ≡ none
    → length (select_where p rows) ≡ 0
unfolding find? select_where
none_pass p [] absent = refl
none_pass p (x ∷ rows) absent = ground (arith, none_pass p rows)

module _ (encrypt : String → Option String) (trim_lower : String → String) where
  -- With unique mailbox ids, if two mailboxes or more have the account's address or the session's
  -- external ids, then the completion of a session that has no mailbox yet, with a refresh token that
  -- can be encrypted, dies of the unique constraints and leaves the tables as they were.
  pub complete-conflicts :
      (new_id ciphertext : String) (params : CompleteSessionParams) (session : ConnectSessionRow)
      (db : ConnectTables)
      → find? (session_is params.connect_session_id) db.sessions ≡ some session
      → session.mailbox_id ≡ none
      → encrypt params.refresh_token ≡ some ciphertext
      → KeyUnique (λ (row : MailboxRow). row.id) db.mailboxes
      → 1
        < length (
            select_where
              (has_account session (trim_lower params.provider_account_email))
              db.mailboxes)
      → complete_connect_session encrypt trim_lower new_id params db ≡ (crashed, db)
  unfolding complete_connect_session complete_in_transaction connect_mailbox
  complete-conflicts new_id ciphertext params session db found unfinished encrypted unique two =
      let account = same_account session (trim_lower params.provider_account_email) in
      rw (encrypted, complete_connect_session)
        (rw (found, complete_in_transaction)
          (rw unfinished (elim (Option-cases (find? account db.mailboxes)) [
            | inl absent ↦ absurd (ground (arith, two, none_pass account db.mailboxes absent))
            | inr (existing, e) ↦
                let (other, clash) = second_found account db.mailboxes existing unique two e in
                rw (connect_mailbox, e, clash) refl
          ])))
