-- ===== src/Replay/Dispatch/Counted.antt =====
-- How many events a replay sends: those of its mailbox in its range.
use mailmon.Base.{
  ℕ, suc, String, ◌≡◌, refl, ◌∙◌, ap, inl, inr, Bool, true, List, [], ◌∷◌, arith, length,
  length-map, Option-cases,
}
use mailmon.Base.Queries.{
  select_sorted, includes-select_sorted, Distinct-select_sorted, length-select_sorted,
}
use mailmon.Base.Table.{find?, select_where, KeyUnique}
use mailmon.Base.Texts.{includes, distinct, distinct-idempotent}
use mailmon.Delivery.Creation.{replay_rows}
use mailmon.Delivery.Creation.Replays.{event_exists}
use mailmon.Delivery.Rows.{EventRow, event_is}
use mailmon.Replay.{in_range, event_ids_of, event_id, event_leq}
use mailmon.Replay.Dispatch.Range.{is_replayed}
use mailmon.Replay.Tables.{ReplayRow}

length-replay_rows :
    (sha256_hex : String → String) (at : ℕ) (endpoint : String) (ids : List String)
    (events : List EventRow)
    → ((id : String) → includes id ids ≡ true → event_exists id events ≡ true)
    → length (replay_rows sha256_hex at endpoint ids events) ≡ length ids
unfolding replay_rows includes
length-replay_rows sha256_hex at endpoint [] events there = refl
length-replay_rows sha256_hex at endpoint (id ∷ ids) events there =
    elim (Option-cases (find? (event_is id) events)) [
      | inl absent ↦ absurd (ground (arith, absent, there id (ground arith)))
      | inr (event, found) ↦
          rw (found, replay_rows)
            (ap suc (
              length-replay_rows sha256_hex at endpoint ids events
                (λ other listed. there other (ground (arith, listed)))))
    ]

same_range :
    (row : ReplayRow) (events : List EventRow)
    → length (select_where (in_range row) events) ≡ length (select_where (is_replayed row) events)
unfolding select_where
same_range row [] = refl
same_range row (event ∷ events) = ground (arith, same_range row events)

listed_exists :
    (row : ReplayRow) (text_before : String → String → Bool) (id : String) (events : List EventRow)
    → KeyUnique event_id events
    → includes id (event_ids_of text_before row events) ≡ true
    → event_exists id events ≡ true
unfolding event_ids_of
listed_exists row text_before id events unique listed =
    elim (Option-cases (find? (event_is id) events)) [
      | inr (event, found) ↦ rw (event_exists, found) refl
      | inl absent ↦ absurd (
          ground (
            arith,
            listed,
            absent,
            includes-select_sorted event_id id (event_leq text_before) (in_range row) events unique,
          ))
    ]

-- With unique event ids, the rows of a replay are as many as the events of its range.
pub length-replayed :
    (sha256_hex : String → String) (text_before : String → String → Bool) (at : ℕ) (row : ReplayRow)
    (events : List EventRow)
    → KeyUnique event_id events
    → length (
        replay_rows sha256_hex at row.webhook_endpoint_id
          (distinct (event_ids_of text_before row events))
          events)
      ≡ length (select_where (is_replayed row) events)
unfolding event_ids_of
length-replayed sha256_hex text_before at row events unique =
    rw
      (distinct-idempotent (event_ids_of text_before row events)
        (Distinct-select_sorted event_id (event_leq text_before) (in_range row) events unique))
      (length-replay_rows sha256_hex at row.webhook_endpoint_id
          (event_ids_of text_before row events) events
          (λ id. listed_exists row text_before id events unique)
        ∙ length-map (select_sorted (event_leq text_before) (in_range row) events) event_id
        ∙ length-select_sorted event_id (event_leq text_before) (in_range row) events
        ∙ same_range row events)
