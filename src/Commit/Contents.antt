-- ===== src/Commit/Contents.antt =====
-- What a commit leaves in the messages.
use mailmon.Base.{
  true, inl, inr, Bool, ℕ, String, ◌≡◌, ◌≢◌, refl, ap, ◌∙◌, Option, none, some, List, [], ◌∷◌,
  arith, ◌==◌, ◌&&◌, ==_refl, String_discrete, if◌then◌else◌,
}
use mailmon.Base.Table.{find?, find?-upsert, find?-upsert_other, find?-delete_where}
use mailmon.Base.Texts.{includes}
use mailmon.Canonical.{normalize_label_ids, to_message_insert, to_message_update}
use mailmon.Commit.Snapshot.{apply_message_deletions, apply_snapshot_messages, upsert_message}
use mailmon.Commit.Guarded.{is_applied, commit_at, commit_cases}
use mailmon.Commit.State.{CommitTables, Commit}
use mailmon.Contracts.{CanonicalMessageRecord}
use mailmon.Schema.{MessageRow, message_is}

-- One message stored where it stands, with the id, the mailbox and the provider's id kept and every
-- other column overwritten, or as a new row.
abbrev pub store_message : ℕ → String → CanonicalMessageRecord → Option MessageRow → MessageRow
store_message now mailbox_id message none = record {
  id = message.id;
  mailbox_id = mailbox_id;
  thread_id = message.thread_id;
  provider_message_id = message.provider_message_id;
  provider_thread_id = message.provider_thread_id;
  subject = message.subject;
  from_name = message.from_name;
  from_email = message.from_email;
  snippet = message.snippet;
  received_at = message.received_at;
  label_ids = normalize_label_ids message.label_ids;
  updated_at = now;
}
store_message now mailbox_id message (some row) = record {
  id = row.id;
  mailbox_id = row.mailbox_id;
  thread_id = message.thread_id;
  provider_message_id = row.provider_message_id;
  provider_thread_id = message.provider_thread_id;
  subject = message.subject;
  from_name = message.from_name;
  from_email = message.from_email;
  snippet = message.snippet;
  received_at = message.received_at;
  label_ids = normalize_label_ids message.label_ids;
  updated_at = now;
}

-- The row of one message after the messages of a snapshot, in their order.
unfoldable pub stored_row :
    ℕ → String → String → List CanonicalMessageRecord → Option MessageRow → Option MessageRow
stored_row now mailbox_id id [] row = row
stored_row now mailbox_id id (message ∷ messages) row = stored_row now mailbox_id id messages (
    if message.provider_message_id == id
    then some (store_message now mailbox_id message row)
    else row)

find?-apply_snapshot_messages :
    (now : ℕ) (mailbox_id id : String) (messages : List CanonicalMessageRecord)
    (rows : List MessageRow)
    → find? (message_is mailbox_id id) (apply_snapshot_messages now mailbox_id messages rows)
      ≡ stored_row now mailbox_id id messages (find? (message_is mailbox_id id) rows)
unfolding apply_snapshot_messages stored_row
find?-apply_snapshot_messages now mailbox_id id [] rows = refl
find?-apply_snapshot_messages now mailbox_id id (message ∷ messages) rows =
    find?-apply_snapshot_messages now mailbox_id id messages _
    ∙ ap (stored_row now mailbox_id id messages) one
  where
    apart :
        message.provider_message_id ≢ id
        → find? (message_is mailbox_id id) (upsert_message now mailbox_id message rows)
          ≡ find? (message_is mailbox_id id) rows
    apart other =
        find?-upsert_other (message_is mailbox_id message.provider_message_id)
          (message_is mailbox_id id) (to_message_insert now mailbox_id message)
          (to_message_update now message) rows (ground (arith, other))
          (λ x hit. ground (arith, other, hit))

    one : find? (message_is mailbox_id id) (upsert_message now mailbox_id message rows) ≡ (
        if message.provider_message_id == id
        then some (store_message now mailbox_id message (find? (message_is mailbox_id id) rows))
        else find? (message_is mailbox_id id) rows)
    one = elim (String_discrete message.provider_message_id id) [
      | yes same ↦ ground (
        arith,
        ==_refl mailbox_id,
        same,
        find?-upsert (message_is mailbox_id message.provider_message_id)
            (to_message_insert now mailbox_id message) (to_message_update now message) rows
            (ground arith) (λ x. refl),
      )
      | no other ↦ ground (arith, other, apart other)
    ]

find?-other_mailbox :
    (now : ℕ) (mailbox_id other id : String) (messages : List CanonicalMessageRecord)
    (rows : List MessageRow)
    → mailbox_id ≢ other
    → find? (message_is other id) (apply_snapshot_messages now mailbox_id messages rows)
      ≡ find? (message_is other id) rows
unfolding apply_snapshot_messages
find?-other_mailbox now mailbox_id other id [] rows apart = refl
find?-other_mailbox now mailbox_id other id (message ∷ messages) rows apart =
    find?-other_mailbox now mailbox_id other id messages _ apart
    ∙ find?-upsert_other (message_is mailbox_id message.provider_message_id) (message_is other id)
        (to_message_insert now mailbox_id message) (to_message_update now message) rows
        (ground (arith, apart)) (λ x hit. ground (arith, apart, hit))

find?-apply_message_deletions :
    (mailbox_id m id : String) (ids : List String) (db : CommitTables)
    → find? (message_is m id) (apply_message_deletions mailbox_id ids db).messages
      ≡ (if mailbox_id == m && includes id ids then none else find? (message_is m id) db.messages)
unfolding apply_message_deletions includes
find?-apply_message_deletions mailbox_id m id [] db = ground arith
find?-apply_message_deletions mailbox_id m id (x ∷ xs) db =
    find?-delete_where _ (message_is m id) (mailbox_id == m && includes id (x ∷ xs)) db.messages
      (λ row hit. ground (arith, hit))

module _ (text_before : String → String → Bool) (sha256_hex : String → String) where
  module _ (now : ℕ) (commit : Commit) (db : CommitTables) where
    -- After a commit that is applied, a message of its mailbox is gone if the snapshot deletes it, and
    -- is otherwise the row that the snapshot's messages, in their order, make of the row before: a new
    -- row, or the old one with its ids kept and its other columns overwritten, the labels normalized.
    pub commit-messages :
        (id : String)
        → is_applied (commit_at text_before sha256_hex now commit db).0 ≡ true
        → find?
            (message_is commit.mailbox_id id)
            (commit_at text_before sha256_hex now commit db).1.messages
          ≡ (if includes id commit.snapshot.deleted_provider_message_ids
              then none
              else stored_row now commit.mailbox_id id commit.snapshot.messages
                  (find? (message_is commit.mailbox_id id) db.messages))
    commit-messages id applied = elim (commit_cases text_before sha256_hex now commit db) [
      | inl (idle, same) ↦ ground (arith, applied, idle)
      | inr (row, found, inl (idle, same)) ↦ ground (arith, applied, idle)
      | inr (row, found, inr (guard, forward, wrote, done)) ↦
          ap (find? (message_is commit.mailbox_id id)) done.1
          ∙ find?-apply_message_deletions commit.mailbox_id commit.mailbox_id id
              commit.snapshot.deleted_provider_message_ids _
          ∙ ground (
            arith,
            ==_refl commit.mailbox_id,
            find?-apply_snapshot_messages now commit.mailbox_id id commit.snapshot.messages
                db.messages,
          )
    ]

    -- A commit, applied or not, leaves the messages of every other mailbox as they were.
    pub commit-other_messages :
        (other id : String)
        → commit.mailbox_id ≢ other
        → find? (message_is other id) (commit_at text_before sha256_hex now commit db).1.messages
          ≡ find? (message_is other id) db.messages
    commit-other_messages other id apart =
        elim (commit_cases text_before sha256_hex now commit db) [
          | inl (idle, same) ↦ rw same refl
          | inr (row, found, inl (idle, same)) ↦ rw same refl
          | inr (row, found, inr (guard, forward, wrote, done)) ↦
              ap (find? (message_is other id)) done.1
              ∙ find?-apply_message_deletions commit.mailbox_id other id
                  commit.snapshot.deleted_provider_message_ids _
              ∙ ground (
                arith,
                apart,
                find?-other_mailbox now commit.mailbox_id other id commit.snapshot.messages
                    db.messages apart,
              )
        ]
