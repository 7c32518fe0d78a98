-- ===== src/Replay/Dispatch/Running.antt =====
-- What a pass over the queued replays does to the replays that are running.

use mailmon.Base.{
  ℕ, String, String_discrete, ◌≡◌, refl, ◌∙◌, inl, inr, Bool, false, Option, none, some, List,
  arith, Bool-cases, Option-cases, length,
}
use mailmon.Base.Passes.{Left, for_each, for_each-keeps}
use mailmon.Base.Table.{
  find?, update_where, find?-update_where, KeyUnique, update_where-KeyUnique, find?-key_and,
  find?_sound,
}
use mailmon.Contracts.{ReplayStatus, WebhookDeliveryScheduleRequest}
use mailmon.Delivery.Creation.{create_webhook_deliveries_for_replay}
use mailmon.Replay.{
  is_queued, queued_replay, running_replay, start_replay, finish_replay, prepare_replay_dispatch,
  complete_replay_dispatch, list_replay_dispatch_targets,
}
use mailmon.Replay.Dispatch.{
  ReplayOutcome, dispatch_claimed, dispatch_prepared, dispatch_replay, dispatch_replays,
  schedule_each,
}
use mailmon.Replay.Tables.{ReplayRow, ReplayTables, PreparedReplayDispatch, replay_is}

abbrev pub replay_id : ReplayRow → String
replay_id row = row.id

abbrev pub is_queued_row : ReplayRow → Bool
is_queued_row row = is_queued row.status

abbrev pub ReplayIdsUnique : ReplayTables → Type 0
ReplayIdsUnique db = KeyUnique replay_id db.replays

abbrev pub replay_row : String → ReplayTables → Option ReplayRow
replay_row id db = find? (replay_is id) db.replays

-- Ids are unique and a replay's row is `row`.
abbrev pub Stands : String → ReplayRow → ReplayTables → Type 0
Stands id row db = ReplayIdsUnique db × (replay_row id db ≡ some row)

-- An update that passes the row by.
update-Stands :
    (id : String) (row : ReplayRow) (p : ReplayRow → Bool) (f : ReplayRow → ReplayRow)
    (db : ReplayTables)
    → ((x : ReplayRow) → (f x).id ≡ x.id)
    → p row ≡ false
    → Stands id row db
    → Stands id row (record db { replays = update_where p f db.replays })
update-Stands id row p f db same miss (unique, found) = (
  update_where-KeyUnique replay_id p f db.replays same unique,
  find?-update_where p (replay_is id) f db.replays (λ x. rw same) ∙ rw found (rw miss refl),
)

-- The replay that was claimed, if any, is not the running one.
abbrev OtherClaimed : ReplayRow → Option PreparedReplayDispatch → Type 0
OtherClaimed row none = Unit
OtherClaimed row (some dispatch) = running_replay dispatch.replay.id row ≡ false

module _ (sha256_hex : String → String) (text_before : String → String → Bool)
    (accepts : WebhookDeliveryScheduleRequest → Bool) where
  dispatch_prepared-Stands :
      (id : String) (row : ReplayRow) (at : ℕ) (dispatch : PreparedReplayDispatch)
      (db : ReplayTables)
      → running_replay dispatch.replay.id row ≡ false
      → Stands id row db
      → Stands id row (dispatch_prepared sha256_hex text_before accepts at dispatch db).state
  unfolding dispatch_prepared complete_replay_dispatch
  dispatch_prepared-Stands id row at dispatch db other stands =
      let made =
        create_webhook_deliveries_for_replay sha256_hex dispatch.replay.webhook_endpoint_id
          dispatch.mailbox_event_ids at db.delivery in
      elim (Bool-cases (schedule_each accepts made.0).1) [
        | inl all ↦
            rw (all, dispatch_prepared)
              (update-Stands id row (running_replay dispatch.replay.id)
                (finish_replay at (length made.0)) (record db { delivery = made.1 }) (λ x. refl)
                other stands)
        | inr part ↦ rw (part, dispatch_prepared) stands
      ]

  -- A claim that passes a row by finds another replay.
  claimed_other :
      (id target : String) (row queued : ReplayRow) (db : ReplayTables)
      → queued_replay target row ≡ false
      → Stands id row db
      → find? (queued_replay target) db.replays ≡ some queued
      → running_replay queued.id row ≡ false
  claimed_other id target row queued db passed (unique, found) e =
      elim (String_discrete id target) [
        | yes same ↦ absurd (
            ground (
              arith,
              passed,
              find?-key_and replay_id target is_queued_row db.replays unique,
              e,
              rw same at found,
              find?_sound (replay_is id) db.replays row found,
            ))
        | no different ↦ ground (
          arith,
          different,
          find?_sound (queued_replay target) db.replays queued e,
          find?_sound (replay_is id) db.replays row found,
        )
      ]

  dispatch_claimed-Stands :
      (id : String) (row : ReplayRow) (at : ℕ) (claimed : Option PreparedReplayDispatch)
      (db : ReplayTables)
      → OtherClaimed row claimed
      → Stands id row db
      → Stands id row (dispatch_claimed sha256_hex text_before accepts at (claimed, db)).state
  dispatch_claimed-Stands id row at none db other stands = stands
  dispatch_claimed-Stands id row at (some dispatch) db other stands =
      dispatch_prepared-Stands id row at dispatch db other stands

  prepare-Stands :
      (id target : String) (row : ReplayRow) (at : ℕ) (db : ReplayTables)
      → queued_replay target row ≡ false
      → Stands id row db
      → OtherClaimed row (prepare_replay_dispatch text_before target at db).0
        × Stands id row (prepare_replay_dispatch text_before target at db).1
  unfolding prepare_replay_dispatch
  prepare-Stands id target row at db passed stands =
      elim (Option-cases (find? (queued_replay target) db.replays)) [
        | inl e ↦ rw (e, prepare_replay_dispatch) (tt, stands)
        | inr (queued, e) ↦
            rw (e, prepare_replay_dispatch)
              (
                claimed_other id target row queued db passed stands e,
                update-Stands id row (queued_replay target) (start_replay at) db (λ x. refl) passed
                    stands,
              )
      ]

  pub dispatch_replay-Stands :
      (id target : String) (row : ReplayRow) (at : ℕ) (db : ReplayTables)
      → queued_replay target row ≡ false
      → Stands id row db
      → Stands id row (dispatch_replay sha256_hex text_before accepts at target db).state
  unfolding dispatch_replay
  dispatch_replay-Stands id target row at db passed stands =
      let (other, claimed) = prepare-Stands id target row at db passed stands in
      dispatch_claimed-Stands id row at (prepare_replay_dispatch text_before target at db).0
        (prepare_replay_dispatch text_before target at db).1 other claimed

  -- Effect.forEach(targets, …)
  abbrev pub dispatch_each :
      ℕ
      → List ReplayRow
      → ReplayTables
      → Left ReplayTables WebhookDeliveryScheduleRequest (List ReplayOutcome)
  dispatch_each at targets db =
      for_each (λ target. dispatch_replay sha256_hex text_before accepts at target.id) targets db

  pub dispatch_each-Stands :
      (id : String) (row : ReplayRow) (at : ℕ) (targets : List ReplayRow) (db : ReplayTables)
      → is_queued row.status ≡ false
      → Stands id row db
      → Stands id row (dispatch_each at targets db).state
  dispatch_each-Stands id row at targets db begun stands =
      for_each-keeps (Stands id row)
        (λ target. dispatch_replay sha256_hex text_before accepts at target.id)
        (λ target state h.
          dispatch_replay-Stands id target.id row at state (ground (arith, begun)) h)
        targets db stands

  -- With unique replay ids, a pass over the queued replays leaves every replay that is running
  -- before it untouched, whatever its limit, its time and the answers of the scheduler: a replay
  -- whose earlier dispatch died after its claim stays running.
  pub dispatch_replays-leaves_running :
      (limit at : ℕ) (id : String) (row : ReplayRow) (db : ReplayTables)
      → ReplayIdsUnique db
      → replay_row id db ≡ some row
      → row.status ≡ ReplayStatus.running
      → replay_row id (dispatch_replays sha256_hex text_before accepts limit at db).state ≡ some row
  unfolding dispatch_replays
  dispatch_replays-leaves_running limit at id row db unique found running =
      (dispatch_each-Stands id row at (list_replay_dispatch_targets text_before limit db.replays) db
        (rw running refl) (unique, found)).1
