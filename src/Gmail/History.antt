-- ===== src/Gmail/History.antt =====
-- compactGmailHistoryRecords of packages/gmail/src/history.ts.
pub mod Membership
use mailmon.Base.{
  String, ◌≡◌, refl, Bool, true, false, not, ◌&&◌, ◌||◌, List, [], ◌∷◌, ◌++◌, arith, ◌==◌,
  if◌then◌else◌, ◌∙◌,
}
use mailmon.Base.Texts.{
  includes, add, remove, includes-add, includes-remove, includes-append, Distinct, add-Distinct,
  remove-Distinct,
}

-- GmailHistoryRecord: the message ids of each list of changes; an absent list is empty.
pub record GmailHistoryRecord : Type 0 where
  pub labels_added : List String
  pub labels_removed : List String
  pub messages_added : List String
  pub messages_deleted : List String

-- GmailHistoryCompaction
pub record Compaction : Type 0 where
  pub changed_message_ids : List String
  pub deleted_message_ids : List String

-- for (const change of changes) if (!deleted.has(id)) changed.add(id)
unfoldable pub note_changes : List String → List String → List String → List String
note_changes deleted [] changed = changed
note_changes deleted (id ∷ ids) changed =
    note_changes deleted ids (if includes id deleted then changed else add id changed)

-- for (const deletion of deletions) { deleted.add(id); changed.delete(id) }
unfoldable pub note_deletions : List String → Compaction → Compaction
note_deletions [] c = c
note_deletions (id ∷ ids) c = note_deletions ids (record {
  deleted_message_ids = add id c.deleted_message_ids;
  changed_message_ids = remove id c.changed_message_ids;
})

unfoldable pub compact_record : GmailHistoryRecord → Compaction → Compaction
compact_record r c =
    let deleted = c.deleted_message_ids in
    let added = note_changes deleted r.messages_added c.changed_message_ids in
    let labelled = note_changes deleted r.labels_added added in
    let unlabelled = note_changes deleted r.labels_removed labelled in
    note_deletions r.messages_deleted (record c { changed_message_ids = unlabelled })

unfoldable pub compact_from : List GmailHistoryRecord → Compaction → Compaction
unfolding compact_record note_changes note_deletions
compact_from [] c = c
compact_from (r ∷ rs) c = compact_from rs (compact_record r c)

unfoldable pub compact_gmail_history_records : List GmailHistoryRecord → Compaction
unfolding compact_from
compact_gmail_history_records records =
    compact_from records (record { changed_message_ids = []; deleted_message_ids = [] })
