-- ===== src/Endpoints/Inserts.antt =====
-- What the insertion of subscriptions in packages/db/src/persistence/webhook-endpoints.ts leaves.
use mailmon.Base.{
  String, Bool, true, false, Option, none, some, List, [], ◌∷◌, ◌++◌, map, ◌==◌, Option-cases, inl,
  inr, arith, ◌≡◌, refl, sym, ap,
}
use mathlib.Core.List.{append_assoc, append-nil}
use mailmon.Base.Table.{find?, select_where}
use mailmon.Base.Texts.{includes, Distinct}
use mailmon.Delivery.Rows.{SubscriptionRow}
use mailmon.Endpoints.{
  CreateSubscriptionParams, subscription_of, new_subscription, insert_subscriptions,
}

-- The endpoint has no subscription to the mailbox.
abbrev pub is_none : {A : Type 0} → Option A → Bool
is_none none = true
is_none (some x) = false

abbrev pub is_free : String → List SubscriptionRow → String → Bool
is_free endpoint_id table mailbox_id =
    is_none (find? (subscription_of endpoint_id mailbox_id) table)

module _ (new_id : String → String) (params : CreateSubscriptionParams) where
  abbrev pub free_ids : List SubscriptionRow → List String → List String
  free_ids table ids = select_where (is_free params.webhook_endpoint_id table) ids

  abbrev pub new_rows : List SubscriptionRow → List String → List SubscriptionRow
  new_rows table ids = map (new_subscription new_id params) (free_ids table ids)

  is_free-append :
      (table : List SubscriptionRow) (x y : String)
      → (x == y) ≡ false
      → is_free params.webhook_endpoint_id (table ++ new_subscription new_id params x ∷ []) y
        ≡ is_free params.webhook_endpoint_id table y
  unfolding find?
  is_free-append [] x y e = ground (arith, e)
  is_free-append (row ∷ table) x y e = ground (arith, is_free-append table x y e)

  free_ids-append :
      (table : List SubscriptionRow) (x : String) (ids : List String)
      → includes x ids ≡ false
      → free_ids (table ++ new_subscription new_id params x ∷ []) ids ≡ free_ids table ids
  unfolding select_where includes
  free_ids-append table x [] e = refl
  free_ids-append table x (y ∷ ids) e =
      ground (arith, is_free-append table x y, free_ids-append table x ids)

  -- Of distinct mailboxes, those without a subscription get one, in their order.
  pub insert_subscriptions-free :
      (ids : List String) (table : List SubscriptionRow)
      → Distinct ids
      → insert_subscriptions new_id params ids table
        ≡ (new_rows table ids, table ++ new_rows table ids)
  unfolding insert_subscriptions select_where
  insert_subscriptions-free [] table d = ap (λ t. ([], t)) (sym (append-nil table))
  insert_subscriptions-free (x ∷ ids) table (fresh, d) =
      elim (Option-cases (find? (subscription_of params.webhook_endpoint_id x) table)) [
        | inl free ↦ ground (
          arith,
          free,
          insert_subscriptions-free ids (table ++ new_subscription new_id params x ∷ []) d,
          free_ids-append table x ids fresh,
          append_assoc table (new_subscription new_id params x ∷ []) (new_rows table ids),
        )
        | inr (row, taken) ↦ ground (arith, taken, insert_subscriptions-free ids table d)
      ]
