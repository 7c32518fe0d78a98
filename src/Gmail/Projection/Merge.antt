-- ===== src/Gmail/Projection/Merge.antt =====
-- Which messages an initial sync keeps.
use mailmon.Base.{String, ◌≡◌, Bool, Option, none, some, List, [], ◌∷◌, ◌==◌, arith, if◌then◌else◌}
use mailmon.Base.Table.{find?, upsert}
use mailmon.Base.Texts.{includes}
use mailmon.Gmail.Projection.{
  GmailMessageResponse, set_message, add_messages, merge_initial_sync_messages,
}

abbrev pub message_named : String → GmailMessageResponse → Bool
message_named id message = message.id == id

-- The last message of that id, or else the given one.
unfoldable pub last_named :
    String → List GmailMessageResponse → Option GmailMessageResponse → Option GmailMessageResponse
last_named id [] found = found
last_named id (message ∷ messages) found =
    last_named id messages (if message.id == id then some message else found)

set_message-found :
    (id : String) (message : GmailMessageResponse) (messages : List GmailMessageResponse)
    → find? (message_named id) (set_message message messages)
      ≡ (if message.id == id then some message else find? (message_named id) messages)
unfolding find? upsert
set_message-found id message [] = ground arith
set_message-found id message (m ∷ ms) = ground (arith, set_message-found id message ms)

add_messages-found :
    (id : String) (deleted : List String) (more messages : List GmailMessageResponse)
    → find? (message_named id) (add_messages deleted more messages) ≡ (
        if includes id deleted
        then find? (message_named id) messages
        else last_named id more (find? (message_named id) messages))
unfolding add_messages last_named
add_messages-found id deleted [] messages = ground arith
add_messages-found id deleted (message ∷ more) messages = ground (
  arith,
  add_messages-found id deleted more messages,
  add_messages-found id deleted more (set_message message messages),
  set_message-found id message messages,
)

-- An initial sync keeps of each id the last message that the catch-up has, or else the last that the
-- baseline has, and none of an id that the catch-up deletes.
pub merge-keeps_last :
    (id : String) (baseline : List GmailMessageResponse) (deleted : List String)
    (catch_up : List GmailMessageResponse)
    → find? (message_named id) (merge_initial_sync_messages baseline deleted catch_up)
      ≡ (if includes id deleted then none else last_named id catch_up (last_named id baseline none))
unfolding merge_initial_sync_messages find?
merge-keeps_last id baseline deleted catch_up = ground (
  arith,
  add_messages-found id deleted catch_up (add_messages deleted baseline []),
  add_messages-found id deleted baseline [],
)
