-- ===== src/Examples/Subscriptions.antt =====
-- A request of the example's endpoint for subscriptions to the example's mailbox and to another.
use mailmon.Base.{String, String_discrete, ◌≡◌, refl, [], ◌∷◌, ◌++◌, ◌⊎◌}
use mailmon.Base.Table.{find?}
use mailmon.Base.Texts.{distinct}
use mailmon.Endpoints.{
  CreateSubscriptionRequest, EndpointTables, SubscribeOutcome, subscribed,
  create_webhook_endpoint_subscription,
}
use mailmon.Endpoints.Subscribing.{Refused, AllOpen, requested_rows, subscribe-all_or_nothing}
use mailmon.Examples.Deliveries.{endpoint_row}
use mailmon.Examples.Rows.{mailbox_row}

abbrev open_tables : EndpointTables
open_tables = record {
  endpoints = endpoint_row ∷ [];
  mailboxes = mailbox_row ∷ [];
  subscriptions = [];
}

abbrev subscription_request : CreateSubscriptionRequest
subscription_request = record {
  mailbox_ids = "m" ∷ "m" ∷ [];
  event_types = "thread.updated" ∷ "message.created" ∷ [];
}

abbrev row_id : String → String
row_id mailbox_id = mailbox_id

subscribe-all_or_nothing_example :
    (AllOpen "w" "p" subscription_request open_tables
      × (create_webhook_endpoint_subscription row_id 5 "w" "p" subscription_request open_tables ≡ (
        subscribed (requested_rows row_id 5 "w" "p" subscription_request),
        record open_tables {
          subscriptions = [] ++ requested_rows row_id 5 "w" "p" subscription_request;
        },
      )))
    ⊎ ((problem : SubscribeOutcome) × Refused "w" "p" subscription_request open_tables problem
        × (create_webhook_endpoint_subscription row_id 5 "w" "p" subscription_request open_tables
            ≡ (problem, open_tables)))
subscribe-all_or_nothing_example =
    subscribe-all_or_nothing row_id 5 "w" "p" subscription_request open_tables

-- The request is granted, with one row for the mailbox that it names twice.
granted :
    ((create_webhook_endpoint_subscription row_id 5 "w" "p" subscription_request open_tables).1
    ).subscriptions
    ≡ record {
      id = "m";
      workspace_id = "w";
      webhook_endpoint_id = "p";
      mailbox_id = "m";
      event_types = "message.created" ∷ "thread.updated" ∷ [];
      created_at = 5;
      updated_at = 5;
    }
      ∷ []
unfolding create_webhook_endpoint_subscription find? distinct String_discrete
granted = refl
