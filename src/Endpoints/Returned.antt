-- ===== src/Endpoints/Returned.antt =====
-- createWebhookEndpointSubscription of packages/db/src/persistence/webhook-endpoints.ts: the rows that
-- the statement returns, counted against the mailboxes of the request.
use mailmon.Base.{
  String, Bool, true, false, ◌&&◌, not, none, some, List, [], ◌∷◌, ◌++◌, map, length, eqb,
  Bool-cases, Option-cases, inl, inr, ◌⊎◌, arith, ◌≡◌, refl, ◌∙◌, ap, length-map, ◌≤◌,
}
use mailmon.Base.Table.{find?, find?_sound, select_where}
use mailmon.Base.Texts.{includes, Distinct}
use mailmon.Delivery.Rows.{SubscriptionRow}
use mailmon.Endpoints.{
  CreateSubscriptionParams, subscribed, already_subscribed, EndpointTables, new_subscription,
  mailbox_ids_of, store_webhook_endpoint_subscription, inserted_or_rolled_back,
}
use mailmon.Endpoints.Inserts.{is_free, free_ids, new_rows, insert_subscriptions-free}

includes-select_where :
    (x : String) (p : String → Bool) (xs : List String)
    → includes x (select_where p xs) ≡ (includes x xs && p x)
unfolding includes select_where
includes-select_where x p [] = refl
includes-select_where x p (y ∷ xs) = ground (arith, includes-select_where x p xs)

pub includes-found :
    (p : String → Bool) (xs : List String) (x : String) → find? p xs ≡ some x → includes x xs ≡ true
unfolding includes find?
includes-found p [] x e = cc
includes-found p (y ∷ xs) x e = ground (arith, includes-found p xs x)

length-select_where :
    (p : String → Bool) (xs : List String) → length (select_where p xs) ≤ length xs
unfolding select_where
length-select_where p [] = omega arith
length-select_where p (x ∷ xs) = ground (arith, length-select_where p xs)

select_where-all :
    (p : String → Bool) (xs : List String)
    → length (select_where p xs) ≡ length xs
    → select_where p xs ≡ xs
unfolding select_where
select_where-all p [] e = refl
select_where-all p (x ∷ xs) e = ground (arith, length-select_where p xs, select_where-all p xs)

-- A search that finds nothing, of what a test does not accept.
all_accepted :
    (p q : String → Bool) (xs : List String)
    → ((x : String) → q x ≡ false → p x ≡ true)
    → find? q xs ≡ none
    → length (select_where p xs) ≡ length xs
unfolding select_where find?
all_accepted p q [] other e = refl
all_accepted p q (x ∷ xs) other e = ground (arith, other x, all_accepted p q xs other)

module _ (new_id : String → String) (params : CreateSubscriptionParams) where
  mailbox_ids_of-new :
      (ids : List String) → mailbox_ids_of (map (new_subscription new_id params) ids) ≡ ids
  mailbox_ids_of-new [] = refl
  mailbox_ids_of-new (x ∷ ids) = ap (λ rest. x ∷ rest) (mailbox_ids_of-new ids)

  -- The first mailbox that the statement did not return has a subscription.
  not_returned :
      (table : List SubscriptionRow) (ids : List String) (id : String)
      → includes id ids ≡ true
      → not (includes id (mailbox_ids_of (new_rows new_id params table ids))) ≡ true
      → is_free params.webhook_endpoint_id table id ≡ false
  not_returned table ids id member missing = ground (
    arith,
    member,
    rw (mailbox_ids_of-new (free_ids new_id params table ids)) at missing,
    includes-select_where id (is_free params.webhook_endpoint_id table) ids,
  )

  store-inserted :
      (db : EndpointTables)
      → Distinct params.mailbox_ids
      → store_webhook_endpoint_subscription new_id params db
        ≡ inserted_or_rolled_back new_id params
            (
              new_rows new_id params db.subscriptions params.mailbox_ids,
              db.subscriptions ++ new_rows new_id params db.subscriptions params.mailbox_ids,
            )
            db
  unfolding store_webhook_endpoint_subscription
  store-inserted db d =
      ap (λ inserted. inserted_or_rolled_back new_id params inserted db)
        (insert_subscriptions-free new_id params params.mailbox_ids db.subscriptions d)

  all_returned :
      (table : List SubscriptionRow) (ids : List String)
      → eqb (length (new_rows new_id params table ids)) (length ids) ≡ true
      → free_ids new_id params table ids ≡ ids
  all_returned table ids e = select_where-all (is_free params.webhook_endpoint_id table) ids (
      ground
        (arith, e, length-map (free_ids new_id params table ids) (new_subscription new_id params)))

  none_missing :
      (table : List SubscriptionRow) (ids : List String)
      → find? (λ id. not (includes id (mailbox_ids_of (new_rows new_id params table ids)))) ids
        ≡ none
      → length (new_rows new_id params table ids) ≡ length ids
  none_missing table ids returned =
      length-map (free_ids new_id params table ids) (new_subscription new_id params)
      ∙ all_accepted (is_free params.webhook_endpoint_id table)
          (λ id. not (includes id (mailbox_ids_of (new_rows new_id params table ids)))) ids
          (λ id here. ground (
            arith,
            here,
            ap (includes id) (mailbox_ids_of-new (free_ids new_id params table ids)),
            includes-select_where id (is_free params.webhook_endpoint_id table) ids,
          ))
          returned

  all_are_free :
      (table : List SubscriptionRow) (ids : List String)
      → free_ids new_id params table ids ≡ ids
      → (id : String) → includes id ids ≡ true
      → is_free params.webhook_endpoint_id table id ≡ true
  all_are_free table ids e id member = ground (
    arith,
    member,
    ap (includes id) e,
    includes-select_where id (is_free params.webhook_endpoint_id table) ids,
  )

  -- Every mailbox gets its subscription, or one has it already and none gets another.
  pub store-all_or_nothing :
      (db : EndpointTables)
      → Distinct params.mailbox_ids
      → (((id : String)
            → includes id params.mailbox_ids ≡ true
            → is_free params.webhook_endpoint_id db.subscriptions id ≡ true)
          × (store_webhook_endpoint_subscription new_id params db ≡ (
            subscribed (map (new_subscription new_id params) params.mailbox_ids),
            record db {
              subscriptions =
                  db.subscriptions ++ map (new_subscription new_id params) params.mailbox_ids;
            },
          )))
        ⊎ ((id : String) × (includes id params.mailbox_ids ≡ true)
            × (is_free params.webhook_endpoint_id db.subscriptions id ≡ false)
            × (store_webhook_endpoint_subscription new_id params db
                ≡ (already_subscribed params.webhook_endpoint_id id, db)))
  store-all_or_nothing db d =
      let table = db.subscriptions in
      let ids = params.mailbox_ids in
      let rows = new_rows new_id params table ids in
      elim (Bool-cases (eqb (length rows) (length ids))) [
        | inl all ↦ inl (
          all_are_free table ids (all_returned table ids all),
          store-inserted db d ∙ rw (all, all_returned table ids all) refl,
        )
        | inr some_missing ↦
            elim (Option-cases (find? (λ id. not (includes id (mailbox_ids_of rows))) ids)) [
              | inl returned ↦
                  absurd (ground (arith, some_missing, none_missing table ids returned))
              | inr (id, missing) ↦ inr (
                id,
                includes-found (λ id. not (includes id (mailbox_ids_of rows))) ids id missing,
                not_returned table ids id
                    (includes-found (λ id. not (includes id (mailbox_ids_of rows))) ids id missing)
                    (find?_sound (λ id. not (includes id (mailbox_ids_of rows))) ids id missing),
                store-inserted db d ∙ rw (some_missing, missing) refl,
              )
            ]
      ]
