-- ===== src/Maintenance/Mailbox.antt =====
-- The row of one mailbox while a pass goes over the table.

use mailmon.Base.{String, ◌≡◌, ◌∙◌, Bool, true, false, some, List, refl, if◌then◌else◌}
use mailmon.Base.Table.{find?, update_where, find?-update_where, KeyUnique, update_where-KeyUnique}
use mailmon.Schema.{MailboxRow, mailbox_is}

abbrev pub mailbox_id : MailboxRow → String
mailbox_id row = row.id

-- Ids are unique, and the mailbox has a row.
abbrev pub Stands : String → MailboxRow → List MailboxRow → Type 0
Stands id row mailboxes =
    KeyUnique mailbox_id mailboxes × (find? (mailbox_is id) mailboxes ≡ some row)

module _ (id : String) (row : MailboxRow) (p : MailboxRow → Bool) (f : MailboxRow → MailboxRow)
    (mailboxes : List MailboxRow) (same : (x : MailboxRow) → (f x).id ≡ x.id) where
  update-Stands :
      (b : Bool)
      → p row ≡ b
      → Stands id row mailboxes
      → Stands id (if b then f row else row) (update_where p f mailboxes)
  update-Stands b test (unique, found) = (
    update_where-KeyUnique mailbox_id p f mailboxes same unique,
    find?-update_where p (mailbox_is id) f mailboxes (λ x. rw same) ∙ rw found (rw test refl),
  )

  pub updated-Stands :
      p row ≡ true → Stands id row mailboxes → Stands id (f row) (update_where p f mailboxes)
  updated-Stands hit stands = update-Stands true hit stands

  pub passed-Stands :
      p row ≡ false → Stands id row mailboxes → Stands id row (update_where p f mailboxes)
  passed-Stands miss stands = update-Stands false miss stands

-- A target that a query found under the id is the row, and passes the query's test.
abbrev pub IsTarget : (MailboxRow → Bool) → String → MailboxRow → MailboxRow → Type 0
IsTarget p id row target = (target.id ≡ id → target ≡ row) × (p target ≡ true)
