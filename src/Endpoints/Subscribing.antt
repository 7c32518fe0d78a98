-- ===== src/Endpoints/Subscribing.antt =====
-- createWebhookEndpointSubscription of packages/core/src/webhook-endpoints.ts: what a request for
-- subscriptions leaves.
use mailmon.Base.{
  ℕ, String, Bool, true, false, none, List, [], ◌∷◌, ◌++◌, map, Option-cases, inl, inr, ◌⊎◌, arith,
  ◌≡◌, refl, sym, ◌∙◌, String_discrete,
}
use mailmon.Base.Table.{find?, find?_sound}
use mailmon.Base.Texts.{includes, includes-distinct, distinct, distinct-Distinct}
use mailmon.Delivery.Rows.{SubscriptionRow}
use mailmon.Endpoints.{
  CreateSubscriptionRequest, SubscribeOutcome, subscribed, endpoint_not_found, mailbox_not_found,
  already_subscribed, count_mismatch, EndpointTables, new_subscription, endpoint_in,
  create_webhook_endpoint_subscription, subscription_params, missing_mailbox,
}
use mailmon.Endpoints.Inserts.{is_free}
use mailmon.Endpoints.Returned.{includes-found, store-all_or_nothing}

found_none :
    (p : String → Bool) (xs : List String) (x : String)
    → find? p xs ≡ none
    → includes x xs ≡ true
    → p x ≡ false
unfolding includes find?
found_none p [] x e member = cc
found_none p (y ∷ xs) x e member = elim (String_discrete y x) [
  | yes same ↦ ground (arith, rw same at e)
  | no different ↦ ground (arith, found_none p xs x, different)
]

-- That a subscription was refused for a reason that the tables confirm.
abbrev pub Refused :
    String → String → CreateSubscriptionRequest → EndpointTables → SubscribeOutcome → Type 0
Refused workspace_id endpoint_id request db (subscribed rows) = ⊥
Refused workspace_id endpoint_id request db (endpoint_not_found id) =
    (id ≡ endpoint_id) × (find? (endpoint_in workspace_id endpoint_id) db.endpoints ≡ none)
Refused workspace_id endpoint_id request db (mailbox_not_found id) =
    (includes id request.mailbox_ids ≡ true) × (missing_mailbox workspace_id db id ≡ true)
Refused workspace_id endpoint_id request db (already_subscribed id mailbox_id) =
    (id ≡ endpoint_id)
    × (includes mailbox_id request.mailbox_ids ≡ true)
    × (is_free endpoint_id db.subscriptions mailbox_id ≡ false)
Refused workspace_id endpoint_id request db (count_mismatch id) = ⊥

-- That every mailbox of a request is one of the workspace and had no subscription.
abbrev pub AllOpen : String → String → CreateSubscriptionRequest → EndpointTables → Type 0
AllOpen workspace_id endpoint_id request db =
    (id : String)
    → includes id request.mailbox_ids ≡ true
    → (missing_mailbox workspace_id db id ≡ false)
      × (is_free endpoint_id db.subscriptions id ≡ true)

module _ (new_id : String → String) (created_at : ℕ) (workspace_id endpoint_id : String)
    (request : CreateSubscriptionRequest) where
  abbrev pub requested_rows : List SubscriptionRow
  requested_rows =
      map
        (new_subscription new_id (subscription_params created_at workspace_id endpoint_id request))
        (distinct request.mailbox_ids)

  -- For any tables, a request for subscriptions either adds one row for each distinct mailbox of the
  -- request, and then every one of them is a mailbox of the workspace to which the endpoint had no
  -- subscription, or it leaves the tables alone and answers with a problem that the tables confirm:
  -- the endpoint is missing, or the mailbox it names was requested and is missing or has a
  -- subscription. The exception of the count that does not match is never thrown.
  pub subscribe-all_or_nothing :
      (db : EndpointTables)
      → (AllOpen workspace_id endpoint_id request db
          × (create_webhook_endpoint_subscription new_id created_at workspace_id endpoint_id request
                db
              ≡ (
                subscribed requested_rows,
                record db { subscriptions = db.subscriptions ++ requested_rows },
              )))
        ⊎ ((problem : SubscribeOutcome) × Refused workspace_id endpoint_id request db problem
            × (create_webhook_endpoint_subscription new_id created_at workspace_id endpoint_id
                  request db
                ≡ (problem, db)))
  unfolding create_webhook_endpoint_subscription
  subscribe-all_or_nothing db =
      let params = subscription_params created_at workspace_id endpoint_id request in
      let ids = distinct request.mailbox_ids in
      let requested = λ (id : String) (e : includes id ids ≡ true).
        sym (includes-distinct id request.mailbox_ids) ∙ e in
      elim (Option-cases (find? (endpoint_in workspace_id endpoint_id) db.endpoints)) [
        | inl absent ↦ inr (
          endpoint_not_found endpoint_id,
          (refl, absent),
          rw (create_webhook_endpoint_subscription, absent) refl,
        )
        | inr (endpoint, present) ↦
            elim (Option-cases (find? (missing_mailbox workspace_id db) ids)) [
              | inr (id, e) ↦ inr (
                mailbox_not_found id,
                (
                  requested id (includes-found (missing_mailbox workspace_id db) ids id e),
                  find?_sound (missing_mailbox workspace_id db) ids id e,
                ),
                rw (create_webhook_endpoint_subscription, present, e) refl,
              )
              | inl none_is_missing ↦
                  elim (store-all_or_nothing new_id params db
                    (distinct-Distinct request.mailbox_ids)) [
                      | inl (free, e) ↦ inl (
                        λ id member. (
                          found_none (missing_mailbox workspace_id db) ids id none_is_missing
                              (includes-distinct id request.mailbox_ids ∙ member),
                          free id (includes-distinct id request.mailbox_ids ∙ member),
                        ),
                        rw (create_webhook_endpoint_subscription, present, none_is_missing) e,
                      )
                      | inr (id, member, taken, e) ↦ inr (
                        already_subscribed endpoint_id id,
                        (refl, requested id member, taken),
                        rw (create_webhook_endpoint_subscription, present, none_is_missing) e,
                      )
                    ]
            ]
      ]
