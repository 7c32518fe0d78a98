-- ===== src/Endpoints.antt =====
-- packages/core/src/webhook-endpoints.ts and packages/db/src/persistence/webhook-endpoints.ts: the
-- endpoints of a workspace, and their subscriptions to mailboxes. The statement
-- INSERT … ON CONFLICT DO NOTHING RETURNING takes the new rows one after the other, and skips a row
-- that conflicts with one that is there by then.
pub mod Inserts
pub mod Returned
pub mod Subscribing
use mailmon.Base.{
  ℕ, String, Bool, true, false, ◌&&◌, not, Option, none, some, List, [], ◌∷◌, ◌++◌, map, length,
  eqb, if◌then◌else◌, ◌==◌, is_text,
}
use mailmon.Base.Table.{find?, select_where}
use mailmon.Base.Texts.{includes, distinct}
use mailmon.Delivery.Rows.{EndpointRow, SubscriptionRow, EndpointState}
use mailmon.Schema.{MailboxRow, mailbox_is}

pub record EndpointTables : Type 0 where
  pub endpoints : List EndpointRow
  pub mailboxes : List MailboxRow
  pub subscriptions : List SubscriptionRow

-- The parameters of createWebhookEndpoint; the id and the secret are random.
pub record CreateEndpointParams : Type 0 where
  pub id : String
  pub workspace_id : String
  pub url : String
  pub description : Option String
  pub secret : String
  pub created_at : ℕ

-- CreateWebhookEndpointSubscriptionRequest
pub record CreateSubscriptionRequest : Type 0 where
  pub mailbox_ids : List String
  pub event_types : List String

-- The parameters of createWebhookEndpointSubscription.
pub record CreateSubscriptionParams : Type 0 where
  pub webhook_endpoint_id : String
  pub workspace_id : String
  pub mailbox_ids : List String
  pub event_types : List String
  pub created_at : ℕ

-- An answer, a problem, or the exception of the count that does not match.
pub data SubscribeOutcome : Type 0 where
  subscribed : List SubscriptionRow → SubscribeOutcome
  endpoint_not_found : (webhook_endpoint_id : String) → SubscribeOutcome
  mailbox_not_found : (mailbox_id : String) → SubscribeOutcome
  already_subscribed : (webhook_endpoint_id mailbox_id : String) → SubscribeOutcome
  count_mismatch : (webhook_endpoint_id : String) → SubscribeOutcome

-- The unique columns of webhook_endpoints.
abbrev pub same_url : String → String → EndpointRow → Bool
same_url workspace_id url row = row.workspace_id == workspace_id && row.url == url

-- The unique columns of webhook_endpoint_subscriptions.
abbrev pub subscription_of : String → String → SubscriptionRow → Bool
subscription_of webhook_endpoint_id mailbox_id row =
    row.webhook_endpoint_id == webhook_endpoint_id && row.mailbox_id == mailbox_id

abbrev pub endpoint_in : String → String → EndpointRow → Bool
endpoint_in workspace_id id row = row.id == id && row.workspace_id == workspace_id

abbrev pub mailbox_in : String → String → MailboxRow → Bool
mailbox_in workspace_id id row = mailbox_is id row && is_text row.workspace_id workspace_id

abbrev pub new_endpoint : CreateEndpointParams → EndpointRow
new_endpoint params = record {
  id = params.id;
  workspace_id = params.workspace_id;
  url = params.url;
  description = params.description;
  signing_secret = params.secret;
  delivery_state = EndpointState.healthy;
  last_delivery_at = none;
  last_error_code = none;
  last_error_message = none;
  last_error_occurred_at = none;
  last_error_retryable = none;
  consecutive_delivery_failures = 0;
  created_at = params.created_at;
  updated_at = params.created_at;
}

-- The created endpoint, or none for the problem webhook_endpoint_already_exists.
unfoldable pub create_webhook_endpoint :
    CreateEndpointParams → EndpointTables → Option EndpointRow × EndpointTables
create_webhook_endpoint params db =
    elim (find? (same_url params.workspace_id params.url) db.endpoints) [
      | some row ↦ (none, db)
      | none ↦ (
        some (new_endpoint params),
        record db { endpoints = db.endpoints ++ new_endpoint params ∷ [] },
      )
    ]

abbrev webhook_event_type_order : List String
webhook_event_type_order = "message.created" ∷ "message.updated" ∷ "thread.updated" ∷ []

unfoldable pub normalize_webhook_event_types : List String → List String
unfolding select_where includes
normalize_webhook_event_types event_types =
    select_where (λ event_type. includes event_type event_types) webhook_event_type_order

abbrev pub mailbox_ids_of : List SubscriptionRow → List String
mailbox_ids_of rows = map (λ row. row.mailbox_id) rows

abbrev pub subscription_params :
    ℕ → String → String → CreateSubscriptionRequest → CreateSubscriptionParams
subscription_params created_at workspace_id webhook_endpoint_id request = record {
  webhook_endpoint_id = webhook_endpoint_id;
  workspace_id = workspace_id;
  mailbox_ids = distinct request.mailbox_ids;
  event_types = normalize_webhook_event_types request.event_types;
  created_at = created_at;
}

abbrev pub missing_mailbox : String → EndpointTables → String → Bool
missing_mailbox workspace_id db id = elim (find? (mailbox_in workspace_id id) db.mailboxes) [
  | none ↦ true
  | some row ↦ false
]

-- `new_id` gives the random id of the row for a mailbox; the mailboxes of a request are made
-- distinct before.
module _ (new_id : String → String) where
  abbrev pub new_subscription : CreateSubscriptionParams → String → SubscriptionRow
  new_subscription params mailbox_id = record {
    id = new_id mailbox_id;
    workspace_id = params.workspace_id;
    webhook_endpoint_id = params.webhook_endpoint_id;
    mailbox_id = mailbox_id;
    event_types = params.event_types;
    created_at = params.created_at;
    updated_at = params.created_at;
  }

  -- The rows that the statement returns, and the table after it.
  unfoldable pub insert_subscriptions :
      CreateSubscriptionParams
      → List String
      → List SubscriptionRow
      → List SubscriptionRow × List SubscriptionRow
  insert_subscriptions params [] table = ([], table)
  insert_subscriptions params (mailbox_id ∷ mailbox_ids) table =
      elim (find? (subscription_of params.webhook_endpoint_id mailbox_id) table) [
        | some row ↦ insert_subscriptions params mailbox_ids table
        | none ↦
            let row = new_subscription params mailbox_id in
            let (rows, after) = insert_subscriptions params mailbox_ids (table ++ row ∷ []) in
            (row ∷ rows, after)
      ]

  -- A problem in the transaction rolls the insertion back.
  abbrev pub inserted_or_rolled_back :
      CreateSubscriptionParams
      → List SubscriptionRow × List SubscriptionRow
      → EndpointTables
      → SubscribeOutcome × EndpointTables
  inserted_or_rolled_back params (rows, after) db =
      if eqb (length rows) (length params.mailbox_ids)
      then (subscribed rows, record db { subscriptions = after })
      else elim (find? (λ id. not (includes id (mailbox_ids_of rows))) params.mailbox_ids) [
        | none ↦ (count_mismatch params.webhook_endpoint_id, db)
        | some mailbox_id ↦ (already_subscribed params.webhook_endpoint_id mailbox_id, db)
      ]

  unfoldable pub store_webhook_endpoint_subscription :
      CreateSubscriptionParams → EndpointTables → SubscribeOutcome × EndpointTables
  unfolding insert_subscriptions
  store_webhook_endpoint_subscription params db =
      inserted_or_rolled_back params
        (insert_subscriptions params params.mailbox_ids db.subscriptions) db

  -- The mailboxes are looked up one after the other, and the first that is missing is the problem.
  unfoldable pub create_webhook_endpoint_subscription :
      ℕ
      → String
      → String
      → CreateSubscriptionRequest
      → EndpointTables
      → SubscribeOutcome × EndpointTables
  unfolding distinct normalize_webhook_event_types store_webhook_endpoint_subscription
  create_webhook_endpoint_subscription created_at workspace_id webhook_endpoint_id request db =
      let params = subscription_params created_at workspace_id webhook_endpoint_id request in
      elim (find? (endpoint_in workspace_id webhook_endpoint_id) db.endpoints) [
        | none ↦ (endpoint_not_found webhook_endpoint_id, db)
        | some endpoint ↦ elim (find? (missing_mailbox workspace_id db) params.mailbox_ids) [
          | some mailbox_id ↦ (mailbox_not_found mailbox_id, db)
          | none ↦ store_webhook_endpoint_subscription params db
        ]
      ]
