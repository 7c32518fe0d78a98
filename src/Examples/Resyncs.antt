-- ===== src/Examples/Resyncs.antt =====
-- The example's message, stored and seen again.
use mailmon.Base.{◌≡◌, true, ◌&&◌, ◌==◌}
use mailmon.Canonical.{to_message_insert, to_message_update, is_same_canonical_message}
use mailmon.Canonical.Stored.{stored-is_same}
use mailmon.Examples.Commits.{message}
use mailmon.Schema.{MessageRow}

abbrev stored : MessageRow
stored = to_message_insert 40 "m" message

stored-is_same_example :
    (is_same_canonical_message (to_message_insert 60 "m" message) message ≡ true)
    × (is_same_canonical_message (to_message_update 60 message stored) message
        ≡ (stored.id == message.id && stored.provider_message_id == message.provider_message_id))
stored-is_same_example = stored-is_same 60 "m" message stored
