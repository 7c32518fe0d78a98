-- ===== src/Push.antt =====
-- ingestGmailPushNotification of packages/core/src/mailbox-dispatch.ts, with the query of
-- packages/db/src/persistence/mailbox-catalog.ts: a push notification of Gmail starts a sync of
-- each mailbox with its address. The dispatcher of syncs is the parameter `accepts`: a mailbox that
-- it does not accept is a defect that ends the pass.
pub mod Reached
use mailmon.Base.{
  ℕ, String, Bool, true, false, ◌&&◌, Option, none, some, List, [], ◌∷◌, length, if◌then◌else◌,
  ◌==◌,
}
use mailmon.Base.Queries.{select_sorted}
use mailmon.Codec.{GmailPushNotification}
use mailmon.Maintenance.Watches.{is_active}
use mailmon.Schema.{MailboxRow}

-- GmailPushNotificationResult
pub record GmailPushNotificationResult : Type 0 where
  pub dispatched : ℕ
  pub email_address : String
  pub history_id : String

-- What a notification leaves: its answer, unless a dispatch died, and the dispatched mailboxes.
pub record Ingested : Type 0 where
  pub answer : Option GmailPushNotificationResult
  pub sent : List String

abbrev pub receives_push : String → MailboxRow → Bool
receives_push email_address row =
    row.provider == "gmail" && (is_active row.status && row.email_address == email_address)

abbrev pub id_leq : (String → String → Bool) → MailboxRow → MailboxRow → Bool
id_leq text_before a b = text_before a.id b.id

abbrev pub push_result_of : GmailPushNotification → List MailboxRow → GmailPushNotificationResult
push_result_of notification mailboxes = record {
  dispatched = length mailboxes;
  email_address = notification.email_address;
  history_id = notification.history_id;
}

module _ (text_before : String → String → Bool) (trim_lower : String → String) where
  unfoldable pub list_mailboxes_for_gmail_push_notification :
      GmailPushNotification → List MailboxRow → List MailboxRow
  unfolding select_sorted
  list_mailboxes_for_gmail_push_notification notification mailboxes =
      select_sorted (id_leq text_before) (receives_push (trim_lower notification.email_address))
        mailboxes

-- The mailboxes that are dispatched before one is refused, and whether all are.
unfoldable pub dispatch_syncs : (String → Bool) → List MailboxRow → List String × Bool
dispatch_syncs accepts [] = ([], true)
dispatch_syncs accepts (mailbox ∷ mailboxes) =
    let (later, all) = dispatch_syncs accepts mailboxes in
    if accepts mailbox.id then (mailbox.id ∷ later, all) else ([], false)

module _ (text_before : String → String → Bool) (trim_lower : String → String)
    (accepts : String → Bool) where
  unfoldable pub ingest_gmail_push_notification : GmailPushNotification → List MailboxRow → Ingested
  unfolding list_mailboxes_for_gmail_push_notification dispatch_syncs
  ingest_gmail_push_notification notification mailboxes =
      let found =
        list_mailboxes_for_gmail_push_notification text_before trim_lower notification mailboxes in
      let (sent, all) = dispatch_syncs accepts found in
      record {
        answer = if all then some (push_result_of notification found) else none;
        sent = sent;
      }
