-- ===== src/Examples/Pushes.antt =====
-- A push notification for the example's mailbox.
use mailmon.Base.{
  ◌↔◌, String, String_discrete, ◌≡◌, refl, Bool, true, none, some, List, [], ◌∷◌, length,
}
use mailmon.Base.Table.{find?}
use mailmon.Base.Texts.{includes}
use mailmon.Codec.{GmailPushNotification}
use mailmon.Examples.Rows.{mailbox_row}
use mailmon.Push.{ingest_gmail_push_notification}
use mailmon.Push.Reached.{IsRecipient, ingest-reaches}
use mailmon.Schema.{MailboxRow, mailbox_is}

abbrev notification : GmailPushNotification
notification = record {
  email_address = "a@b.c";
  history_id = "20";
  message_id = none;
  subscription = none;
}

abbrev mailboxes : List MailboxRow
mailboxes = mailbox_row ∷ record mailbox_row { id = "n"; email_address = "d@e.f" } ∷ []

abbrev any_order : String → String → Bool
any_order a b = true

abbrev as_written : String → String
as_written email = email

abbrev working_dispatcher : String → Bool
working_dispatcher id = true

ingest-reaches_example :
    ((ingest_gmail_push_notification any_order as_written working_dispatcher notification
        mailboxes).answer
      ≡ some record {
        dispatched =
            length
              (ingest_gmail_push_notification any_order as_written working_dispatcher notification
                mailboxes).sent;
        email_address = "a@b.c";
        history_id = "20";
      })
    × ((includes "m"
            (ingest_gmail_push_notification any_order as_written working_dispatcher notification
              mailboxes).sent
          ≡ true)
        ↔ ((row : MailboxRow) × (find? (mailbox_is "m") mailboxes ≡ some row)
            × IsRecipient "a@b.c" row))
unfolding find? String_discrete
ingest-reaches_example =
    ingest-reaches any_order as_written working_dispatcher notification mailboxes "m" (λ id. refl)
      (refl, (refl, tt))

-- The mailbox of the address is dispatched, and the other is not.
sent_once :
    (ingest_gmail_push_notification any_order as_written working_dispatcher notification
      mailboxes).sent
    ≡ "m" ∷ []
unfolding ingest_gmail_push_notification String_discrete
sent_once = refl
