-- ===== src/Canonical.antt =====
-- packages/db/src/persistence/canonical-state-mappers.ts: how canonical messages and threads become
-- rows, and when a row already says what a record says.
pub mod Stored
use mailmon.Base.{ℕ, String, Bool, true, false, ◌&&◌, Option, none, some, List, [], ◌∷◌, eqb, ◌==◌}
use mailmon.Base.Sort.{text_leq, sort_by}
use mailmon.Base.Texts.{distinct}
use mailmon.Contracts.{CanonicalThreadRecord, CanonicalMessageRecord}
use mailmon.Schema.{ThreadRow, MessageRow}

unfoldable pub normalize_label_ids : List String → List String
unfolding text_leq sort_by distinct
normalize_label_ids label_ids = sort_by text_leq (distinct label_ids)

-- `now` is `new Date()`.
abbrev pub to_thread_insert : ℕ → String → CanonicalThreadRecord → ThreadRow
to_thread_insert now mailbox_id thread = record {
  id = thread.id;
  mailbox_id = mailbox_id;
  provider_thread_id = thread.provider_thread_id;
  subject = thread.subject;
  last_message_at = thread.last_message_at;
  updated_at = now;
}

abbrev pub to_thread_update : ℕ → CanonicalThreadRecord → ThreadRow → ThreadRow
to_thread_update now thread row = record row {
  subject = thread.subject;
  last_message_at = thread.last_message_at;
  updated_at = now;
}

abbrev pub to_message_insert : ℕ → String → CanonicalMessageRecord → MessageRow
to_message_insert now mailbox_id message = record {
  id = message.id;
  mailbox_id = mailbox_id;
  thread_id = message.thread_id;
  provider_message_id = message.provider_message_id;
  provider_thread_id = message.provider_thread_id;
  subject = message.subject;
  from_name = message.from_name;
  from_email = message.from_email;
  snippet = message.snippet;
  received_at = message.received_at;
  label_ids = normalize_label_ids message.label_ids;
  updated_at = now;
}

abbrev pub to_message_update : ℕ → CanonicalMessageRecord → MessageRow → MessageRow
to_message_update now message row = record row {
  thread_id = message.thread_id;
  provider_thread_id = message.provider_thread_id;
  subject = message.subject;
  from_name = message.from_name;
  from_email = message.from_email;
  snippet = message.snippet;
  received_at = message.received_at;
  label_ids = normalize_label_ids message.label_ids;
  updated_at = now;
}

-- hasSameStringArrayValues
unfoldable pub same_texts : List String → List String → Bool
same_texts [] [] = true
same_texts (x ∷ xs) (y ∷ ys) = x == y && same_texts xs ys
same_texts _ _ = false

abbrev pub same_text? : Option String → Option String → Bool
same_text? none none = true
same_text? (some s) (some t) = s == t
same_text? _ _ = false

abbrev pub to_canonical_thread_from_message_row : MessageRow → CanonicalThreadRecord
to_canonical_thread_from_message_row row = record {
  id = row.thread_id;
  provider_thread_id = row.provider_thread_id;
  subject = row.subject;
  last_message_at = row.received_at;
}

unfoldable pub is_same_canonical_message : MessageRow → CanonicalMessageRecord → Bool
unfolding same_texts normalize_label_ids
is_same_canonical_message row message =
    row.id == message.id
    && row.thread_id == message.thread_id
    && row.provider_message_id == message.provider_message_id
    && row.provider_thread_id == message.provider_thread_id
    && row.subject == message.subject
    && same_text? row.from_name message.from_name
    && row.from_email == message.from_email
    && row.snippet == message.snippet
    && eqb row.received_at message.received_at
    && same_texts row.label_ids (normalize_label_ids message.label_ids)

unfoldable pub is_same_canonical_thread : ThreadRow → CanonicalThreadRecord → Bool
is_same_canonical_thread row thread =
    row.id == thread.id
    && row.provider_thread_id == thread.provider_thread_id
    && row.subject == thread.subject
    && eqb row.last_message_at thread.last_message_at
