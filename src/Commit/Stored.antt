-- ===== src/Commit/Stored.antt =====
-- The events that a commit leaves.
use mailmon.Base.{
  ℕ, String, ◌≡◌, refl, ◌∙◌, inl, inr, Bool, true, false, none, some, List, [], ◌∷◌, arith, ◌==◌,
  ◌||◌, ==_refl, All, map,
}
use mailmon.Base.Table.{find?, upsert, insert_unless}
use mailmon.Commit.Events.{insert_mailbox_events}
use mailmon.Commit.Guarded.{is_applied, event_ids, commit_at, commit_cases}
use mailmon.Commit.State.{CommitTables, Commit}
use mailmon.Contracts.{MailboxEventEnvelope}
use mailmon.MailboxEvents.{to_mailbox_event_insert}
use mailmon.Schema.{MailboxEventRow}

abbrev pub event_stored : String → List MailboxEventRow → Bool
event_stored id rows = elim (find? (λ (row : MailboxEventRow). row.id == id) rows) [
  | none ↦ false
  | some _ ↦ true
]

event_stored-insert :
    (id : String) (event : MailboxEventEnvelope) (rows : List MailboxEventRow)
    → event_stored id (
        insert_unless
          (λ (row : MailboxEventRow). row.id == event.id)
          (to_mailbox_event_insert event)
          rows)
      ≡ (event_stored id rows || event.id == id)
unfolding insert_unless upsert find?
event_stored-insert id event [] = ground arith
event_stored-insert id event (row ∷ rows) = ground (arith, event_stored-insert id event rows)

event_stored-later :
    (id : String) (events : List MailboxEventEnvelope) (rows : List MailboxEventRow)
    → event_stored id rows ≡ true
    → event_stored id (insert_mailbox_events events rows) ≡ true
unfolding insert_mailbox_events
event_stored-later id [] rows there = there
event_stored-later id (event ∷ events) rows there =
    event_stored-later id events _ (event_stored-insert id event rows ∙ rw there refl)

insert_mailbox_events-stored :
    (events : List MailboxEventEnvelope) (rows : List MailboxEventRow)
    → All
        (λ id. event_stored id (insert_mailbox_events events rows) ≡ true)
        (map (λ (event : MailboxEventEnvelope). event.id) events)
unfolding insert_mailbox_events
insert_mailbox_events-stored [] rows = tt
insert_mailbox_events-stored (event ∷ events) rows = (
  event_stored-later event.id events _
      (event_stored-insert event.id event rows ∙ ground (arith, ==_refl event.id)),
  insert_mailbox_events-stored events _,
)

module _ (text_before : String → String → Bool) (sha256_hex : String → String) where
  -- Every event id that an applied commit reports is the id of a stored mailbox event.
  pub commit-stores_events :
      (now : ℕ) (commit : Commit) (db : CommitTables)
      → is_applied (commit_at text_before sha256_hex now commit db).0 ≡ true
      → All
          (λ id.
            event_stored id (commit_at text_before sha256_hex now commit db).1.mailbox_events
            ≡ true)
          (event_ids (commit_at text_before sha256_hex now commit db).0)
  commit-stores_events now commit db applied =
      elim (commit_cases text_before sha256_hex now commit db) [
        | inl (idle, same) ↦ ground (arith, applied, idle)
        | inr (row, found, inl (idle, same)) ↦ ground (arith, applied, idle)
        | inr (row, found, inr (guard, forward, wrote, done)) ↦
            rw (done.3, done.4) (insert_mailbox_events-stored done.2 db.mailbox_events)
      ]
