-- ===== src/Canonical/Stored.antt =====
-- When a stored message says what its record says, for the events of a commit.
use mailmon.Base.{
  ℕ, String, ◌≡◌, refl, true, ◌&&◌, Option, none, some, List, [], ◌∷◌, ◌==◌, ==_refl, arith,
}
use mailmon.Canonical.{
  to_message_insert, to_message_update, same_texts, same_text?, is_same_canonical_message,
  normalize_label_ids,
}
use mailmon.Contracts.{CanonicalMessageRecord}
use mailmon.Schema.{MessageRow}

same_texts_refl : (xs : List String) → same_texts xs xs ≡ true
unfolding same_texts
same_texts_refl [] = refl
same_texts_refl (x ∷ xs) = ground (arith, same_texts_refl xs)

same_text_refl : (o : Option String) → same_text? o o ≡ true
same_text_refl none = refl
same_text_refl (some s) = ==_refl s

-- A message just inserted counts as the same, and a row just updated counts as the same exactly when
-- it had the id and the provider's id of the message, so that storing a message again is no change.
pub stored-is_same :
    (now : ℕ) (mailbox_id : String) (message : CanonicalMessageRecord) (row : MessageRow)
    → (is_same_canonical_message (to_message_insert now mailbox_id message) message ≡ true)
      × (is_same_canonical_message (to_message_update now message row) message
          ≡ (row.id == message.id && row.provider_message_id == message.provider_message_id))
unfolding is_same_canonical_message
stored-is_same now mailbox_id message row = ground (
  arith,
  same_texts_refl (normalize_label_ids message.label_ids),
  same_text_refl message.from_name,
)
