-- ===== src/Push/Reached.antt =====
-- Which mailboxes ingestGmailPushNotification of packages/core/src/mailbox-dispatch.ts reaches.
use mailmon.Contracts.{MailboxStatus}
use mailmon.Maintenance.Watches.{is_active}
use mailmon.Base.{
  ◌↔◌, Option-cases, inl, inr, Option, String, Bool, true, some, List, [], ◌∷◌, map, length, ◌≡◌,
  refl, sym, ap, arith, length-map,
}
use mailmon.Base.Queries.{passes, includes-select_sorted}
use mailmon.Base.Table.{find?, KeyUnique}
use mailmon.Base.Texts.{includes}
use mailmon.Codec.{GmailPushNotification}
use mailmon.Push.{
  receives_push, id_leq, push_result_of, list_mailboxes_for_gmail_push_notification, dispatch_syncs,
  ingest_gmail_push_notification,
}
use mailmon.Schema.{MailboxRow, mailbox_is}

abbrev mailbox_id_of : MailboxRow → String
mailbox_id_of row = row.id

all_dispatched :
    (accepts : String → Bool) (mailboxes : List MailboxRow)
    → ((id : String) → accepts id ≡ true)
    → dispatch_syncs accepts mailboxes ≡ (map mailbox_id_of mailboxes, true)
unfolding dispatch_syncs
all_dispatched accepts [] working = refl
all_dispatched accepts (mailbox ∷ mailboxes) working =
    ground (arith, working mailbox.id, all_dispatched accepts mailboxes working)

-- An active Gmail mailbox with this address.
abbrev pub IsRecipient : String → MailboxRow → Type 0
IsRecipient email_address row =
    (row.provider ≡ "gmail")
    × (row.status ≡ MailboxStatus.active)
    × (row.email_address ≡ email_address)

active_status : (status : MailboxStatus) → is_active status ≡ true → status ≡ MailboxStatus.active
active_status MailboxStatus.active e = refl
active_status MailboxStatus.reconnect_required e = absurd (ground (arith, e))
active_status MailboxStatus.disabled e = absurd (ground (arith, e))

receives_push-IsRecipient :
    (email_address : String) (row : MailboxRow)
    → (receives_push email_address row ≡ true) ↔ IsRecipient email_address row
receives_push-IsRecipient email_address row = (
  λ e. (ground (arith, e), active_status row.status (ground (arith, e)), ground (arith, e)),
  λ (gmail, active, address). rw (gmail, active, address) (ground arith),
)

passes-IsRecipient :
    (email_address : String) (found : Option MailboxRow)
    → (passes (receives_push email_address) found ≡ true)
      ↔ ((row : MailboxRow) × (found ≡ some row) × IsRecipient email_address row)
passes-IsRecipient email_address found = elim (Option-cases found) [
  | inl e ↦
      (λ h. absurd (ground (arith, rw e at h)), λ (row, here, is). absurd (ground (arith, e, here)))
  | inr (row, e) ↦ (
    λ h. (row, e, (receives_push-IsRecipient email_address row).0 (rw e at h)),
    λ (other, here, is). rw here ((receives_push-IsRecipient email_address other).1 is),
  )
]

module _ (text_before : String → String → Bool) (trim_lower : String → String)
    (accepts : String → Bool) where
  ingest-all :
      (notification : GmailPushNotification) (mailboxes : List MailboxRow)
      → ((id : String) → accepts id ≡ true)
      → ingest_gmail_push_notification text_before trim_lower accepts notification mailboxes
        ≡ record {
          answer = some (
              push_result_of notification (
                list_mailboxes_for_gmail_push_notification text_before trim_lower notification
                  mailboxes));
          sent = map mailbox_id_of (
              list_mailboxes_for_gmail_push_notification text_before trim_lower notification
                mailboxes);
        }
  unfolding ingest_gmail_push_notification
  ingest-all notification mailboxes working =
      rw
        (all_dispatched accepts
          (list_mailboxes_for_gmail_push_notification text_before trim_lower notification mailboxes)
          working)
        refl

  reached :
      (notification : GmailPushNotification) (mailboxes : List MailboxRow) (id : String)
      → ((id : String) → accepts id ≡ true)
      → KeyUnique (λ row. row.id) mailboxes
      → includes id
          (ingest_gmail_push_notification text_before trim_lower accepts notification
            mailboxes).sent
        ≡ passes
            (receives_push (trim_lower notification.email_address))
            (find? (mailbox_is id) mailboxes)
  unfolding list_mailboxes_for_gmail_push_notification
  reached notification mailboxes id working unique =
      rw (ingest-all notification mailboxes working) (
        includes-select_sorted mailbox_id_of id (id_leq text_before)
          (receives_push (trim_lower notification.email_address)) mailboxes unique)

  -- If the dispatcher takes every mailbox and the ids of the mailboxes are unique, then a push
  -- notification is answered with the number of the dispatched mailboxes, and an id is dispatched
  -- exactly if the mailbox with this id is an active Gmail mailbox with the normalized address.
  pub ingest-reaches :
      (notification : GmailPushNotification) (mailboxes : List MailboxRow) (id : String)
      → ((id : String) → accepts id ≡ true)
      → KeyUnique (λ row. row.id) mailboxes
      → let left =
          ingest_gmail_push_notification text_before trim_lower accepts notification mailboxes in
        (left.answer
          ≡ some record {
            dispatched = length left.sent;
            email_address = notification.email_address;
            history_id = notification.history_id;
          })
        × ((includes id left.sent ≡ true) ↔ (
            (row : MailboxRow) × (find? (mailbox_is id) mailboxes ≡ some row)
            × IsRecipient (trim_lower notification.email_address) row))
  ingest-reaches notification mailboxes id working unique =
      let found =
        list_mailboxes_for_gmail_push_notification text_before trim_lower notification mailboxes in
      (
        rw (ingest-all notification mailboxes working) (
            ap
              (λ count. some record {
                dispatched = count;
                email_address = notification.email_address;
                history_id = notification.history_id;
              })
              (sym (length-map found mailbox_id_of))),
        rw (reached notification mailboxes id working unique) (
            passes-IsRecipient (trim_lower notification.email_address)
              (find? (mailbox_is id) mailboxes)),
      )
