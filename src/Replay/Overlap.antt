-- ===== src/Replay/Overlap.antt =====
-- Two replays of one destination that are queued or running never share a moment.
use mailmon.Contracts.{ReplayStatus}
use mailmon.Base.{
  ltb, ◌==◌, not, ℕ, String, ◌≡◌, refl, inl, inr, Bool, true, false, ◌&&◌, none, List, [], ◌∷◌,
  ◌++◌, arith, All, Bool-cases, Option-cases, if◌then◌else◌,
}
use mailmon.Base.Queries.{first-select_sorted}
use mailmon.Base.Table.{find?, update_where, find?-none_update, find?-append_one, find?-none_mono}
use mailmon.Replay.{
  insert_replay, requested_conflict, new_replay, start_replay, finish_replay, fail_replay,
  queued_replay, running_replay, replay_leq, find_committed_conflict, create_replay,
  prepare_replay_dispatch, complete_replay_dispatch, fail_replay_dispatch,
}
use mailmon.Replay.Tables.{
  ReplayRow, ReplayTables, CreateReplayRequest, InsertFate, inserted, overlap_violated, deadlocked,
  refused, replay_is, is_active_replay,
}

abbrev pub has_ended : ReplayStatus → Bool
has_ended ReplayStatus.completed = true
has_ended ReplayStatus.failed = true
has_ended ReplayStatus.cancelled = true
has_ended ReplayStatus.queued = false
has_ended ReplayStatus.running = false

-- Neither replay has ended, they have one destination, and neither range is over before the other
-- begins.
abbrev pub overlapping : ReplayRow → ReplayRow → Bool
overlapping x y =
    not (has_ended x.status)
    && (not (has_ended y.status)
        && (x.workspace_id == y.workspace_id
            && (x.mailbox_id == y.mailbox_id
                && (x.webhook_endpoint_id == y.webhook_endpoint_id
                    && (not (ltb x.end_time y.start_time) && not (ltb y.end_time x.start_time))))))

abbrev pub Apart : List ReplayRow → Type 0
Apart [] = Unit
Apart (x ∷ xs) = (find? (overlapping x) xs ≡ none) × Apart xs

-- What a row becomes keeps its destination and its range, and is active only if the row was.
abbrev Fades : (ReplayRow → Bool) → (ReplayRow → ReplayRow) → Type 0
Fades p f =
    (x y : ReplayRow)
    → p x ≡ true
    → (overlapping x y ≡ false → overlapping (f x) y ≡ false)
      × (overlapping y x ≡ false → overlapping y (f x) ≡ false)

module _ (p : ReplayRow → Bool) (f : ReplayRow → ReplayRow) (fades : Fades p f) where
  head-Apart :
      (x : ReplayRow) (xs : List ReplayRow)
      → find? (overlapping x) xs ≡ none
      → find? (overlapping (if p x then f x else x)) (update_where p f xs) ≡ none
  head-Apart x xs e = elim (Bool-cases (p x)) [
    | inl here ↦ rw here (
        find?-none_update p (overlapping (f x)) f xs (λ y q. (fades y (f x) q).1)
          (find?-none_mono (overlapping x) (overlapping (f x)) xs (λ y. (fades x y here).0) e))
    | inr there ↦ rw there (find?-none_update p (overlapping x) f xs (λ y q. (fades y x q).1) e)
  ]

  update_where-Apart : (xs : List ReplayRow) → Apart xs → Apart (update_where p f xs)
  unfolding update_where
  update_where-Apart [] a = tt
  update_where-Apart (x ∷ xs) (alone, rest) = (head-Apart x xs alone, update_where-Apart xs rest)

append-Apart :
    (x : ReplayRow) (xs : List ReplayRow)
    → Apart xs
    → find? (λ y. overlapping y x) xs ≡ none
    → Apart (xs ++ x ∷ [])
unfolding find?
append-Apart x [] a e = (refl, tt)
append-Apart x (y ∷ ys) (alone, rest) e = elim (Bool-cases (overlapping y x)) [
  | inl hit ↦ absurd (ground (arith, rw hit at e))
  | inr miss ↦
      (find?-append_one (overlapping y) ys x alone miss, append-Apart x ys rest (rw miss at e))
]

active_unless_ended : (status : ReplayStatus) → is_active_replay status ≡ not (has_ended status)
active_unless_ended ReplayStatus.queued = refl
active_unless_ended ReplayStatus.running = refl
active_unless_ended ReplayStatus.completed = refl
active_unless_ended ReplayStatus.failed = refl
active_unless_ended ReplayStatus.cancelled = refl

-- A row that does not conflict with a request does not overlap the replay it asks for.
no_conflict-apart :
    (params : CreateReplayRequest) (row : ReplayRow)
    → requested_conflict params row ≡ false
    → overlapping row (new_replay params) ≡ false
no_conflict-apart params row e = ground (arith, e, active_unless_ended row.status)

-- A call of the store, by whichever process.
pub data ReplayCall : Type 0 where
  creates : InsertFate → CreateReplayRequest → ReplayCall
  prepares : String → ℕ → ReplayCall
  completes : String → ℕ → ℕ → ReplayCall
  fails : String → ℕ → String → ReplayCall

-- The tables that others leave behind in a race are of the kind that the invariant describes.
abbrev pub OthersApart : ReplayCall → Type 0
OthersApart (creates (overlap_violated later) params) = Apart later
OthersApart (creates (deadlocked at_once after_10 after_25 after_50) params) = Apart after_50
OthersApart _ = Unit

module _ (text_before : String → String → Bool) where
  unfoldable pub step : ReplayCall → ReplayTables → ReplayTables
  step (creates fate params) db = record db {
    replays = (create_replay text_before fate params db.replays).1;
  }
  step (prepares id at) db = (prepare_replay_dispatch text_before id at db).1
  step (completes id at count) db = complete_replay_dispatch id at count db
  step (fails id at error) db = fail_replay_dispatch id at error db

  unfoldable pub run_calls : List ReplayCall → ReplayTables → ReplayTables
  unfolding step
  run_calls [] db = db
  run_calls (call ∷ calls) db = run_calls calls (step call db)

  create-Apart :
      (fate : InsertFate) (params : CreateReplayRequest) (replays : List ReplayRow)
      → OthersApart (creates fate params)
      → Apart replays
      → Apart (create_replay text_before fate params replays).1
  unfolding create_replay find_committed_conflict
  create-Apart fate params replays others a =
      elim (first-select_sorted (replay_leq text_before) (requested_conflict params) replays) [
        | inr (conflict, e, passes) ↦ rw (e, create_replay) a
        | inl (e, absent) ↦ rw (e, create_replay) (no_conflict fate others absent)
      ]
    where
      no_conflict :
          (fate : InsertFate)
          → OthersApart (creates fate params)
          → find? (requested_conflict params) replays ≡ none
          → Apart (insert_replay text_before fate params replays).1
      no_conflict inserted others absent = append-Apart (new_replay params) replays a (
          find?-none_mono (requested_conflict params) (λ y. overlapping y (new_replay params))
            replays (λ y h. no_conflict-apart params y h) absent)
      no_conflict (overlap_violated later) others absent = others
      no_conflict (deadlocked at_once after_10 after_25 after_50) others absent = others
      no_conflict (refused detail) others absent = a

  start-Fades : (id : String) (at : ℕ) → Fades (queued_replay id) (start_replay at)
  start-Fades id at x y here = (ground arith, ground arith)

  finish-Fades : (id : String) (at count : ℕ) → Fades (running_replay id) (finish_replay at count)
  finish-Fades id at count x y here = (ground arith, ground arith)

  fail-Fades : (id : String) (at : ℕ) (error : String) → Fades (replay_is id) (fail_replay at error)
  fail-Fades id at error x y here = (ground arith, ground arith)

  step-Apart :
      (call : ReplayCall) (db : ReplayTables)
      → OthersApart call
      → Apart db.replays
      → Apart (step call db).replays
  unfolding step prepare_replay_dispatch complete_replay_dispatch fail_replay_dispatch
  step-Apart (creates fate params) db others a = create-Apart fate params db.replays others a
  step-Apart (prepares id at) db others a =
      elim (Option-cases (find? (queued_replay id) db.replays)) [
        | inl e ↦ rw (e, step, prepare_replay_dispatch) a
        | inr (row, e) ↦
            rw (e, step, prepare_replay_dispatch)
              (update_where-Apart (queued_replay id) (start_replay at) (start-Fades id at)
                db.replays a)
      ]
  step-Apart (completes id at count) db others a =
      update_where-Apart (running_replay id) (finish_replay at count) (finish-Fades id at count)
        db.replays a
  step-Apart (fails id at error) db others a =
      update_where-Apart (replay_is id) (fail_replay at error) (fail-Fades id at error) db.replays a

  -- If no two active replays of one destination share a moment, then none do after any sequence of
  -- creations, claims, completions and failures, by any number of processes, given that the tables
  -- which the winner of a race left behind are of that kind.
  pub run_calls-Apart :
      (calls : List ReplayCall) (db : ReplayTables)
      → All OthersApart calls
      → Apart db.replays
      → Apart (run_calls calls db).replays
  unfolding run_calls
  run_calls-Apart [] db others a = a
  run_calls-Apart (call ∷ calls) db (other, others) a =
      run_calls-Apart calls (step call db) others (step-Apart call db other a)
