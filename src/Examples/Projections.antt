-- ===== src/Examples/Projections.antt =====
-- An initial sync with its catch-up, and the threads of two messages.
use mailmon.Base.{String, ◌≡◌, none, some, List, [], ◌∷◌, All, if◌then◌else◌}
use mailmon.Base.Table.{find?}
use mailmon.Base.Texts.{includes}
use mailmon.Contracts.{CanonicalMessageRecord}
use mailmon.Examples.Commits.{message}
use mailmon.Gmail.Projection.{GmailMessageResponse, merge_initial_sync_messages, snapshot_threads}
use mailmon.Gmail.Projection.Merge.{message_named, last_named, merge-keeps_last}
use mailmon.Gmail.Projection.Threads.{Covers, snapshot_threads-Covers}

abbrev response : String → String → GmailMessageResponse
response id snippet = record {
  id = id;
  thread_id = "t1";
  snippet = some snippet;
  internal_date = none;
  label_ids = none;
  payload = none;
}

abbrev baseline : List GmailMessageResponse
baseline = response "a" "old" ∷ response "b" "gone" ∷ []

abbrev catch_up : List GmailMessageResponse
catch_up = response "a" "new" ∷ []

merge-keeps_last_example :
    find? (message_named "a") (merge_initial_sync_messages baseline ("b" ∷ []) catch_up) ≡ (
      if includes "a" ("b" ∷ [])
      then none
      else last_named "a" catch_up (last_named "a" baseline none))
merge-keeps_last_example = merge-keeps_last "a" baseline ("b" ∷ []) catch_up

abbrev messages : List CanonicalMessageRecord
messages = message ∷ record message { id = "msg_2"; received_at = 3 } ∷ []

snapshot_threads-Covers_example : All (Covers (snapshot_threads messages)) messages
snapshot_threads-Covers_example = snapshot_threads-Covers messages
