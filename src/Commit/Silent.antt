-- ===== src/Commit/Silent.antt =====
-- The message events of a snapshot that brings nothing new.
use mailmon.Base.{String, ◌≡◌, refl, true, some, List, [], ◌∷◌, ◌==◌, All}
use mailmon.Canonical.{is_same_canonical_message}
use mailmon.Commit.Events.{message_events}
use mailmon.Commit.Snapshot.{find_last}
use mailmon.Contracts.{CanonicalMessageRecord}
use mailmon.MailboxEvents.{MailboxCommitIdentity}
use mailmon.Schema.{MessageRow}

-- The message is stored as it is.
abbrev pub Known : List MessageRow → CanonicalMessageRecord → Type 0
Known existing message =
    (row : MessageRow) × (find_last
        (λ (r : MessageRow). r.provider_message_id == message.provider_message_id) existing
      ≡ some row)
    × (is_same_canonical_message row message ≡ true)

-- A snapshot all of whose messages are stored as they are emits no message event, whoever syncs.
pub message_events-Known :
    (sha256_hex : String → String) (identity : MailboxCommitIdentity) (existing : List MessageRow)
    (messages : List CanonicalMessageRecord)
    → All (Known existing) messages
    → message_events sha256_hex identity existing messages ≡ []
unfolding message_events
message_events-Known sha256_hex identity existing [] known = refl
message_events-Known sha256_hex identity existing (message ∷ messages) ((row, found, same), known) =
    rw (found, message_events)
      (rw same (message_events-Known sha256_hex identity existing messages known))
