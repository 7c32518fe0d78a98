-- ===== src/Gmail/History/Membership.antt =====
-- What compactGmailHistoryRecords of packages/gmail/src/history.ts keeps of a history.
use mailmon.Base.{String, ◌≡◌, Bool, false, not, ◌&&◌, ◌||◌, List, [], ◌∷◌, arith}
use mailmon.Base.Texts.{includes, add, remove, includes-add, includes-remove}
use mailmon.Gmail.History.{
  GmailHistoryRecord, Compaction, note_changes, note_deletions, compact_record, compact_from,
  compact_gmail_history_records,
}

-- A record adds the message, or adds or removes a label of it.
unfoldable pub touches : String → GmailHistoryRecord → Bool
touches x r =
    includes x r.messages_added || includes x r.labels_added || includes x r.labels_removed

unfoldable pub ever_touched : String → List GmailHistoryRecord → Bool
unfolding touches
ever_touched x [] = false
ever_touched x (r ∷ rs) = touches x r || ever_touched x rs

unfoldable pub ever_deleted : String → List GmailHistoryRecord → Bool
ever_deleted x [] = false
ever_deleted x (r ∷ rs) = includes x r.messages_deleted || ever_deleted x rs

includes-note_changes :
    (x : String) (deleted ids changed : List String)
    → includes x (note_changes deleted ids changed)
      ≡ (includes x changed || (includes x ids && not (includes x deleted)))
unfolding note_changes includes
includes-note_changes x deleted [] changed = ground arith
includes-note_changes x deleted (id ∷ ids) changed = ground (
  arith,
  includes-note_changes x deleted ids changed,
  includes-note_changes x deleted ids (add id changed),
  includes-add x id changed,
)

deleted-note_deletions :
    (x : String) (ids : List String) (c : Compaction)
    → includes x (note_deletions ids c).deleted_message_ids
      ≡ (includes x c.deleted_message_ids || includes x ids)
unfolding note_deletions includes
deleted-note_deletions x [] c = ground arith
deleted-note_deletions x (id ∷ ids) c = ground (
  arith,
  deleted-note_deletions x ids (record {
    deleted_message_ids = add id c.deleted_message_ids;
    changed_message_ids = remove id c.changed_message_ids;
  }),
  includes-add x id c.deleted_message_ids,
)

changed-note_deletions :
    (x : String) (ids : List String) (c : Compaction)
    → includes x (note_deletions ids c).changed_message_ids
      ≡ (includes x c.changed_message_ids && not (includes x ids))
unfolding note_deletions includes
changed-note_deletions x [] c = ground arith
changed-note_deletions x (id ∷ ids) c = ground (
  arith,
  changed-note_deletions x ids (record {
    deleted_message_ids = add id c.deleted_message_ids;
    changed_message_ids = remove id c.changed_message_ids;
  }),
  includes-remove x id c.changed_message_ids,
)

deleted-compact_record :
    (x : String) (r : GmailHistoryRecord) (c : Compaction)
    → includes x (compact_record r c).deleted_message_ids
      ≡ (includes x c.deleted_message_ids || includes x r.messages_deleted)
unfolding compact_record
deleted-compact_record x r c = deleted-note_deletions x r.messages_deleted _

changed-compact_record :
    (x : String) (r : GmailHistoryRecord) (c : Compaction)
    → includes x (compact_record r c).changed_message_ids ≡ (
        (includes x c.changed_message_ids
          || (touches x r && not (includes x c.deleted_message_ids)))
        && not (includes x r.messages_deleted))
unfolding compact_record touches
changed-compact_record x r c =
    let d = c.deleted_message_ids in
    let a = note_changes d r.messages_added c.changed_message_ids in
    let l = note_changes d r.labels_added a in
    ground (
      arith,
      changed-note_deletions x r.messages_deleted
          (record c { changed_message_ids = note_changes d r.labels_removed l }),
      includes-note_changes x d r.labels_removed l,
      includes-note_changes x d r.labels_added a,
      includes-note_changes x d r.messages_added c.changed_message_ids,
    )

deleted-compact_from :
    (x : String) (rs : List GmailHistoryRecord) (c : Compaction)
    → includes x (compact_from rs c).deleted_message_ids
      ≡ (includes x c.deleted_message_ids || ever_deleted x rs)
unfolding compact_from ever_deleted
deleted-compact_from x [] c = ground arith
deleted-compact_from x (r ∷ rs) c =
    ground (arith, deleted-compact_from x rs (compact_record r c), deleted-compact_record x r c)

changed-compact_from :
    (x : String) (rs : List GmailHistoryRecord) (c : Compaction)
    → includes x (compact_from rs c).changed_message_ids ≡ (
        (includes x c.changed_message_ids
          || (ever_touched x rs && not (includes x c.deleted_message_ids)))
        && not (ever_deleted x rs))
unfolding compact_from ever_deleted ever_touched
changed-compact_from x [] c = ground arith
changed-compact_from x (r ∷ rs) c = ground (
  arith,
  changed-compact_from x rs (compact_record r c),
  deleted-compact_record x r c,
  changed-compact_record x r c,
)

-- The compaction of a history lists as deleted exactly the messages that some record deletes, and
-- as changed exactly those that some record adds or relabels and none deletes, whatever the order
-- of the records.
pub compaction-membership :
    (x : String) (records : List GmailHistoryRecord)
    → let c = compact_gmail_history_records records in
      (includes x c.deleted_message_ids ≡ ever_deleted x records)
      × (includes x c.changed_message_ids
          ≡ (ever_touched x records && not (ever_deleted x records)))
unfolding compact_gmail_history_records includes
compaction-membership x records = (
  ground (arith, deleted-compact_from x records nothing),
  ground (arith, changed-compact_from x records nothing),
)
  where
    nothing : Compaction
    nothing = record { changed_message_ids = []; deleted_message_ids = [] }
