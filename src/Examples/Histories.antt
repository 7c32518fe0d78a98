-- ===== src/Examples/Histories.antt =====
-- Cursors, the history of a mailbox, and the codes of failed runs.
use mailmon.Base.{◌≡◌, not, ◌&&◌, List, [], ◌∷◌}
use mailmon.Base.Texts.{includes}
use mailmon.Gmail.History.{GmailHistoryRecord, compact_gmail_history_records}
use mailmon.Gmail.History.Membership.{ever_deleted, ever_touched, compaction-membership}

abbrev records : List GmailHistoryRecord
records =
    record {
      labels_added = [];
      labels_removed = [];
      messages_added = "a" ∷ "b" ∷ [];
      messages_deleted = [];
    }
    ∷ record {
      labels_added = "a" ∷ [];
      labels_removed = [];
      messages_added = [];
      messages_deleted = "b" ∷ [];
    }
    ∷ []

compaction-membership_example :
    (includes "b" (compact_gmail_history_records records).deleted_message_ids
      ≡ ever_deleted "b" records)
    × (includes "b" (compact_gmail_history_records records).changed_message_ids
        ≡ (ever_touched "b" records && not (ever_deleted "b" records)))
compaction-membership_example = compaction-membership "b" records
