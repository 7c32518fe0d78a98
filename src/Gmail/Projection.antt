-- ===== src/Gmail/Projection.antt =====
-- mergeInitialSyncMessages, and the threads of toSyncSnapshot, of
-- packages/gmail/src/canonical-projection.ts.
pub mod Merge
pub mod Threads
use mailmon.Base.{ℕ, String, Bool, Option, none, some, List, [], ◌∷◌, leb, ◌==◌, if◌then◌else◌}
use mailmon.Base.Table.{find?, upsert}
use mailmon.Base.Texts.{includes}
use mailmon.Contracts.{CanonicalMessageRecord, CanonicalThreadRecord}

pub record GmailHeader : Type 0 where
  pub name : String
  pub value : String

-- The payload of a message: its headers, if it has any.
pub record GmailPayload : Type 0 where
  pub headers : Option (List GmailHeader)

-- GmailMessageResponse: absent fields are `none`.
pub record GmailMessageResponse : Type 0 where
  pub id : String
  pub thread_id : String
  pub snippet : Option String
  pub internal_date : Option String
  pub label_ids : Option (List String)
  pub payload : Option GmailPayload

-- messagesById.set(message.id, message): a key that is there keeps its place.
abbrev pub set_message :
    GmailMessageResponse → List GmailMessageResponse → List GmailMessageResponse
set_message message messages =
    upsert (λ (m : GmailMessageResponse). m.id == message.id) message (λ _. message) messages

-- for (const message of messages) if (!deleted.has(message.id)) messagesById.set(message.id, message)
unfoldable pub add_messages :
    List String → List GmailMessageResponse → List GmailMessageResponse → List GmailMessageResponse
unfolding includes upsert
add_messages deleted [] messages = messages
add_messages deleted (message ∷ more) messages =
    add_messages deleted more
      (if includes message.id deleted then messages else set_message message messages)

unfoldable pub merge_initial_sync_messages :
    List GmailMessageResponse
    → (deleted_message_ids : List String) → List GmailMessageResponse
    → List GmailMessageResponse
unfolding add_messages
merge_initial_sync_messages baseline deleted catch_up =
    add_messages deleted catch_up (add_messages deleted baseline [])

abbrev pub thread_named : String → CanonicalThreadRecord → Bool
thread_named id thread = thread.provider_thread_id == id

abbrev pub thread_of_message : CanonicalMessageRecord → CanonicalThreadRecord
thread_of_message message = record {
  id = message.thread_id;
  last_message_at = message.received_at;
  provider_thread_id = message.provider_thread_id;
  subject = message.subject;
}

abbrev pub is_newer : CanonicalMessageRecord → Option CanonicalThreadRecord → Bool
is_newer message none = Bool.true
is_newer message (some thread) = leb thread.last_message_at message.received_at

abbrev pub note_thread :
    CanonicalMessageRecord → List CanonicalThreadRecord → List CanonicalThreadRecord
note_thread message threads =
    if is_newer message (find? (thread_named message.provider_thread_id) threads)
    then upsert (thread_named message.provider_thread_id) (thread_of_message message)
        (λ _. thread_of_message message) threads
    else threads

-- The values of canonicalThreads after its loop over the messages.
unfoldable pub threads_from :
    List CanonicalMessageRecord → List CanonicalThreadRecord → List CanonicalThreadRecord
unfolding find? upsert
threads_from [] threads = threads
threads_from (message ∷ messages) threads = threads_from messages (note_thread message threads)

unfoldable pub snapshot_threads : List CanonicalMessageRecord → List CanonicalThreadRecord
unfolding threads_from
snapshot_threads messages = threads_from messages []
