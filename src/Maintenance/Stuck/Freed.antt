-- ===== src/Maintenance/Stuck/Freed.antt =====
-- What a pass of recoveries does to each mailbox.
use mailmon.Base.{
  ℕ, String, String_discrete, ◌≡◌, refl, ◌∙◌, ap, sym, subst, Bool, true, false, Option, none, some,
  List, map, arith, if◌then◌else◌, All, inl, inr, Bool-cases, Option-cases,
}
use mailmon.Base.Passes.{for_each, for_each-keeps_at, for_each-reaches}
use mailmon.Base.Queries.{All-query, All-keyed, All-unlisted}
use mailmon.Base.Table.{KeyUnique, find?, find?-key_and, find?_sound}
use mailmon.Base.Texts.{includes}
use mailmon.Lease.Recovery.{
  same_run, recoverable, can_recover, recover_row, recover_stuck_mailbox_sync_execution,
}
use mailmon.Maintenance.Mailbox.{mailbox_id, Stands, updated-Stands, passed-Stands, IsTarget}
use mailmon.Maintenance.Stuck.{
  StuckMailboxSyncRecoveryOutcome, requires_reconnect, is_stuck, settle_recovery, recover_target,
  list_stuck_mailbox_sync_executions, recover_stuck_mailbox_sync_executions,
}
use mailmon.Contracts.{MailboxSyncState}
use mailmon.OperationalState.{transition_for_stuck_execution_recovery}
use mailmon.OperationalState.Update.{apply_transition}
use mailmon.Schema.{MailboxRow, SyncTables, mailbox_is}

abbrev StandsIn : String → MailboxRow → SyncTables → Type 0
StandsIn id row db = Stands id row db.mailboxes

same_run_refl : (run : Option String) → same_run run run ≡ true
same_run_refl none = refl
same_run_refl (some run) = ground arith

found_as :
    (id : String) (row : MailboxRow) (at : ℕ) (run : Option String) (db : SyncTables) (b : Bool)
    → recoverable at run row ≡ b
    → StandsIn id row db
    → find? (can_recover id at run) db.mailboxes ≡ (if b then some row else none)
found_as id row at run db b e (unique, found) =
    find?-key_and mailbox_id id (recoverable at run) db.mailboxes unique ∙ rw found (rw e refl)

-- A mailbox whose stuck execution was recovered.
abbrev pub freed_row : ℕ → MailboxRow → MailboxRow
freed_row at row = record row {
  active_sync_lease_acquired_at = none;
  active_sync_lease_expires_at = none;
  active_sync_lease_heartbeat_at = none;
  active_sync_lease_owner = none;
  active_sync_run_id = none;
  last_error_code = some "stuck_mailbox_execution_recovered";
  last_error_message = some "Mailbox sync execution was recovered after its active lease expired.";
  last_error_occurred_at = some at;
  last_error_retryable = some true;
  sync_state = MailboxSyncState.lagging;
  updated_at = at;
}

freed_row-recover_row : (at : ℕ) (row : MailboxRow) → recover_row at row ≡ freed_row at row
unfolding apply_transition transition_for_stuck_execution_recovery
freed_row-recover_row at row = refl

module _ (text_before : String → String → Bool) (accepts : String → Bool)
    (at stale_threshold_ms : ℕ) where
  settled :
      (target : MailboxRow) (answer : Bool) (db : SyncTables)
      → (settle_recovery text_before accepts target (answer, db)).state ≡ db
  settled target true db = ground arith
  settled target false db = refl

  recovered :
      (target : MailboxRow) (db : SyncTables)
      → (recover_target text_before accepts at target db).state
        ≡ (recover_stuck_mailbox_sync_execution target.id at target.active_sync_run_id db).1
  unfolding recover_target
  recovered target db =
      settled target
        (recover_stuck_mailbox_sync_execution target.id at target.active_sync_run_id db).0
        (recover_stuck_mailbox_sync_execution target.id at target.active_sync_run_id db).1

  recover-stuck :
      (row : MailboxRow) (db : SyncTables)
      → is_stuck at stale_threshold_ms row ≡ true
      → StandsIn row.id row db
      → StandsIn row.id
          (recover_row at row)
          (recover_stuck_mailbox_sync_execution row.id at row.active_sync_run_id db).1
  unfolding recover_stuck_mailbox_sync_execution apply_transition
  recover-stuck row db stuck stands =
      rw
        (
          found_as row.id row at row.active_sync_run_id db true
              (ground (arith, stuck, same_run_refl row.active_sync_run_id)) stands,
          recover_stuck_mailbox_sync_execution,
        )
        (updated-Stands row.id row (mailbox_is row.id) (recover_row at) db.mailboxes (λ x. refl)
          (ground arith) stands)

  recover-freed :
      (id : String) (row : MailboxRow) (run : Option String) (db : SyncTables)
      → StandsIn id (recover_row at row) db
      → (recover_stuck_mailbox_sync_execution id at run db).1 ≡ db
  unfolding recover_stuck_mailbox_sync_execution apply_transition
  recover-freed id row run db stands =
      rw
        (
          found_as id (recover_row at row) at run db false refl stands,
          recover_stuck_mailbox_sync_execution,
        )
        refl

  recover-other :
      (id other : String) (row : MailboxRow) (run : Option String) (db : SyncTables)
      → ¬ (other ≡ id)
      → StandsIn id row db
      → StandsIn id row (recover_stuck_mailbox_sync_execution other at run db).1
  unfolding recover_stuck_mailbox_sync_execution apply_transition
  recover-other id other row run db different stands =
      elim (Option-cases (find? (can_recover other at run) db.mailboxes)) [
        | inl e ↦ rw (e, recover_stuck_mailbox_sync_execution) stands
        | inr (stuck, e) ↦
            rw (e, recover_stuck_mailbox_sync_execution)
              (passed-Stands id row (mailbox_is other) (recover_row at) db.mailboxes (λ x. refl)
                (ground (arith, different, find?_sound (mailbox_is id) db.mailboxes _ stands.1))
                stands)
      ]

  recover_target-answers :
      ((id : String) → accepts id ≡ true)
      → (target : MailboxRow) (db : SyncTables)
      → (outcome : StuckMailboxSyncRecoveryOutcome) × ((recover_target text_before accepts at target
            db).answer
          ≡ some outcome)
  unfolding recover_target
  recover_target-answers all target db =
      settle (recover_stuck_mailbox_sync_execution target.id at target.active_sync_run_id db).0
        (recover_stuck_mailbox_sync_execution target.id at target.active_sync_run_id db).1
    where
      settle :
          (answer : Bool) (after : SyncTables)
          → (outcome : StuckMailboxSyncRecoveryOutcome) × ((settle_recovery text_before accepts
                target
                (answer, after)).answer
              ≡ some outcome)
      settle false after = (_, refl)
      settle true after = elim (Bool-cases (requires_reconnect target.status)) [
        | inl reconnect ↦ rw reconnect (_, refl)
        | inr connected ↦ rw connected (rw (all target.id) (_, refl))
      ]

  recover_target-stuck :
      (id : String) (row target : MailboxRow) (db : SyncTables)
      → target.id ≡ id
      → IsTarget (is_stuck at stale_threshold_ms) id row target
      → StandsIn id row db
      → StandsIn id (recover_row at row) (recover_target text_before accepts at target db).state
  recover_target-stuck id row target db same (is_row, stuck) stands =
      subst
        (λ i.
          StandsIn i (recover_row at row) (recover_target text_before accepts at target db).state)
        (sym (ap mailbox_id (is_row same)) ∙ same)
        (rw (recovered target db) (
          rw (is_row same) (
            recover-stuck row db (rw (is_row same) at stuck)
              (subst (λ i. StandsIn i row db) (sym same ∙ ap mailbox_id (is_row same)) stands))))

  recover_target-again :
      (id : String) (row target : MailboxRow) (db : SyncTables)
      → StandsIn id (recover_row at row) db
      → StandsIn id (recover_row at row) (recover_target text_before accepts at target db).state
  recover_target-again id row target db stands = elim (String_discrete target.id id) [
    | yes same ↦
        rw (recovered target db)
          (rw same (rw (recover-freed id row target.active_sync_run_id db stands) stands))
    | no different ↦ rw (recovered target db) (
        recover-other id target.id (recover_row at row) target.active_sync_run_id db different
          stands)
  ]

  recover_each-Stands :
      (id : String) (row : MailboxRow) (targets : List MailboxRow) (db : SyncTables)
      → ((name : String) → accepts name ≡ true)
      → All (IsTarget (is_stuck at stale_threshold_ms) id row) targets
      → StandsIn id row db
      → StandsIn id
          (if includes id (map mailbox_id targets) then recover_row at row else row)
          (for_each (recover_target text_before accepts at) targets db).state
  recover_each-Stands id row targets db all are_targets stands =
      elim (Bool-cases (includes id (map mailbox_id targets))) [
        | inl listed ↦ rw listed (
            for_each-reaches (StandsIn id row) (StandsIn id (recover_row at row))
              (IsTarget (is_stuck at stale_threshold_ms) id row) mailbox_id id
              (recover_target text_before accepts at) (recover_target-answers all)
              (λ target tables same is h. recover_target-stuck id row target tables same is h)
              (λ target tables different h.
                rw (recovered target tables)
                  (recover-other id target.id row target.active_sync_run_id tables different h))
              (λ target tables is h. recover_target-again id row target tables h) targets db
              are_targets listed stands)
        | inr unlisted ↦ rw unlisted (
            for_each-keeps_at (StandsIn id row) (λ target. ¬ (target.id ≡ id))
              (recover_target text_before accepts at)
              (λ target tables different h.
                rw (recovered target tables)
                  (recover-other id target.id row target.active_sync_run_id tables different h))
              targets db (All-unlisted mailbox_id id targets unlisted) stands)
      ]

  -- If the dispatcher accepts every sync and mailbox ids are unique, then a pass of recoveries
  -- leaves each mailbox of its batch without a lease and with the error of a recovery, and every
  -- other mailbox as it was. The batch is the first `limit` Gmail mailboxes, not disabled, whose
  -- lease ran out at least the threshold before the pass.
  pub recover_stuck-row :
      (limit : ℕ) (id : String) (row : MailboxRow) (db : SyncTables)
      → ((name : String) → accepts name ≡ true)
      → KeyUnique mailbox_id db.mailboxes
      → find? (mailbox_is id) db.mailboxes ≡ some row
      → find?
          (mailbox_is id)
          (recover_stuck_mailbox_sync_executions text_before accepts limit at stale_threshold_ms
            db).state.mailboxes
        ≡ some (
            if includes id (
              map mailbox_id (
                list_stuck_mailbox_sync_executions text_before limit at stale_threshold_ms
                  db.mailboxes))
            then freed_row at row
            else row)
  unfolding recover_stuck_mailbox_sync_executions list_stuck_mailbox_sync_executions
  recover_stuck-row limit id row db all unique found =
      (recover_each-Stands id row
        (list_stuck_mailbox_sync_executions text_before limit at stale_threshold_ms db.mailboxes) db
        all
        (All-query (λ target. target.id ≡ id → target ≡ row)
          (IsTarget (is_stuck at stale_threshold_ms) id row) _ (is_stuck at stale_threshold_ms)
          limit db.mailboxes (λ target stuck is_row. (is_row, stuck))
          (All-keyed mailbox_id id row db.mailboxes unique found))
        (unique, found)).1
      ∙ ap
          (λ freed. some (
            if includes id (
              map mailbox_id (
                list_stuck_mailbox_sync_executions text_before limit at stale_threshold_ms
                  db.mailboxes))
            then freed
            else row))
          (freed_row-recover_row at row)
