-- ===== src/Execution/Outcomes.antt =====
-- What a sync of a mailbox leaves, on each of its outcomes.
use mathlib.Core.Option
use mailmon.Base.{
  ℕ, String, ◌≡◌, refl, ap, ◌∙◌, inl, inr, Bool, true, false, Option, some, List, arith,
  if◌then◌else◌, Option-cases,
}
use mailmon.Base.Table.{find?, find?-update_where, find?_sound}
use mailmon.Commit.Fencing.{commit-advances}
use mailmon.Commit.Guarded.{is_applied}
use mailmon.Commit.State.{CommitResult, committed, failed, threw, CommitTables}
use mailmon.Execution.{
  commit_provider_sync_result, race, run_acquired_mailbox_sync_execution, run_mailbox_sync,
  run_started,
}
use mailmon.Execution.Steps.{
  SyncRequest, Work, committed_events, work_failed, died, refused, heartbeat_before_commit,
  completed, skipped_due_to_active_lease, Provided, fetched, Race, work_first,
  heartbeat_after_commit, scheduling_dies, unscheduled, release, settle, interrupted, work_of,
  is_reconnect_required, commit_of, lease_request, start, complete_acquired_execution_failure,
}
use mailmon.Lease.{release_mailbox_sync_lease, can_release}
use mailmon.Lease.Calls.{held_by, MailboxIdsUnique}
use mailmon.Lease.Grant.{acquire-refused_while_held}
use mailmon.Schema.{MailboxRow, mailbox_is, without_lease}
use mailmon.SyncRuns.{mailbox_cursor, start_sync_run, complete_sync_run}

release-unheld :
    (request : SyncRequest) (db : CommitTables) (at : ℕ)
    → held_by request.mailbox_id request.lease_owner_id at (release request db).sync ≡ false
unfolding release_mailbox_sync_lease
release-unheld request db at =
    elim (Option-cases (find? (mailbox_is request.mailbox_id) db.sync.mailboxes)) [
      | inl e ↦ ground (arith, e, released)
      | inr (row, e) ↦
          ground (
            arith,
            e,
            released,
            find?_sound (mailbox_is request.mailbox_id) db.sync.mailboxes row e,
          )
    ]
  where
    released :
        find? (mailbox_is request.mailbox_id) (release request db).sync.mailboxes
        ≡ Option.map
            (λ row.
              if can_release request.mailbox_id request.lease_owner_id row
              then record (without_lease row) { updated_at = request.released_at }
              else row)
            (find? (mailbox_is request.mailbox_id) db.sync.mailboxes)
    released =
        find?-update_where (can_release request.mailbox_id request.lease_owner_id)
          (mailbox_is request.mailbox_id)
          (λ row. record (without_lease row) { updated_at = request.released_at }) db.sync.mailboxes
          (λ row. refl)

release-cursor :
    (request : SyncRequest) (db : CommitTables)
    → mailbox_cursor request.mailbox_id (release request db).sync.mailboxes
      ≡ mailbox_cursor request.mailbox_id db.sync.mailboxes
unfolding release_mailbox_sync_lease
release-cursor request db = ground (
  arith,
  find?-update_where (can_release request.mailbox_id request.lease_owner_id)
      (mailbox_is request.mailbox_id)
      (λ row. record (without_lease row) { updated_at = request.released_at }) db.sync.mailboxes
      (λ row. refl),
)

module _ (text_before : String → String → Bool) (sha256_hex : String → String) where
  -- However a sync that took the lease ends, be it by a result, a problem, a lost race or an
  -- exception, its worker holds no lease on the mailbox afterwards.
  pub run_acquired-releases :
      (request : SyncRequest) (provided : Provided) (first : Race) (db : CommitTables) (at : ℕ)
      → held_by request.mailbox_id request.lease_owner_id at
          (run_acquired_mailbox_sync_execution text_before sha256_hex request provided first
            db).1.sync
        ≡ false
  unfolding run_acquired_mailbox_sync_execution
  run_acquired-releases request provided first db at =
      let (work, db') = race text_before sha256_hex request provided first db in
      release-unheld request (settle request work db').1 at

  -- With unique mailbox ids, a sync of a mailbox that need not be reconnected, started while another worker's lease lasts
  -- beyond the start, is skipped and names the holder; it changes neither mailboxes nor messages nor
  -- threads nor events, whatever the provider would give.
  pub run-skips_while_held :
      (provide : Option String → Provided) (meanwhile : CommitTables → CommitTables)
      (request : SyncRequest) (first : Race) (db : CommitTables) (row : MailboxRow) (owner : String)
      → MailboxIdsUnique db.sync
      → find? (mailbox_is request.mailbox_id) db.sync.mailboxes ≡ some row
      → is_reconnect_required row.status ≡ false
      → held_by request.mailbox_id owner request.started_at db.sync ≡ true
      → let r = run_mailbox_sync text_before sha256_hex provide meanwhile request first db in
        (r.0 ≡ skipped_due_to_active_lease (some owner))
        × (r.1.sync.mailboxes ≡ db.sync.mailboxes)
        × (r.1.messages ≡ db.messages)
        × (r.1.threads ≡ db.threads)
        × (r.1.mailbox_events ≡ db.mailbox_events)
  unfolding run_mailbox_sync run_started start_sync_run complete_sync_run
  run-skips_while_held provide meanwhile request first db row owner u found active_ held =
      let (no_lease, holder, same) =
        acquire-refused_while_held (lease_request request) (start request db).sync u owner held in
      rw (found, run_mailbox_sync) (rw active_ (ground (arith, no_lease, holder, same)))

  settled-completed :
      (request : SyncRequest) (work : Work) (db : CommitTables) (ids : List String)
      (next : Option String)
      → (settle request work db).0 ≡ completed ids next
      → (work ≡ committed_events ids next) × ((settle request work db).1 ≡ db)
  unfolding complete_acquired_execution_failure
  settled-completed request (committed_events some_ids some_next) db ids next e = ground (arith, e)
  settled-completed request (work_failed problem) db ids next e = ground (arith, e)
  settled-completed request died db ids next e = ground (arith, e)

  interrupted-uncommitted :
      (request : SyncRequest) (work : Work) (ids : List String) (next : Option String)
      → ¬ (interrupted request work ≡ committed_events ids next)
  interrupted-uncommitted request (committed_events some_ids some_next) ids next e = cc
  interrupted-uncommitted request (work_failed problem) ids next e = cc
  interrupted-uncommitted request died ids next e = cc

  unscheduled-uncommitted :
      (work : Work) (ids : List String) (next : Option String)
      → ¬ (unscheduled work ≡ committed_events ids next)
  unscheduled-uncommitted (committed_events some_ids some_next) ids next e = cc
  unscheduled-uncommitted (work_failed problem) ids next e = cc
  unscheduled-uncommitted died ids next e = cc

  work_of-committed :
      (request : SyncRequest) (cursor : Option String) (result : CommitResult) (ids : List String)
      (next : Option String)
      → work_of request cursor result ≡ committed_events ids next
      → (is_applied result ≡ true) × (cursor ≡ next)
  work_of-committed request cursor (committed true some_ids) ids next e = ground (arith, e)
  work_of-committed request cursor (committed false some_ids) ids next e = ground (arith, e)
  work_of-committed request cursor (failed problem) ids next e = ground (arith, e)
  work_of-committed request cursor threw ids next e = ground (arith, e)

  race-committed :
      (request : SyncRequest) (provided : Provided) (first : Race) (db : CommitTables)
      (ids : List String) (next : Option String)
      → (race text_before sha256_hex request provided first db).0 ≡ committed_events ids next
      → (held_by request.mailbox_id request.lease_owner_id request.commit_checked_at db.sync ≡ true)
        × (mailbox_cursor request.mailbox_id
              (race text_before sha256_hex request provided first db).1.sync.mailboxes
            ≡ next)
  unfolding race commit_provider_sync_result
  race-committed request (refused problem) work_first db ids next e = cc
  race-committed request provided heartbeat_before_commit db ids next e = cc
  race-committed request provided heartbeat_after_commit db ids next e =
      absurd (interrupted-uncommitted request _ ids next e)
  race-committed request provided scheduling_dies db ids next e =
      absurd (unscheduled-uncommitted _ ids next e)
  race-committed request (fetched snapshot cursor) work_first db ids next e =
      let commit = commit_of request snapshot cursor in
      let (applied, same) = work_of-committed request cursor _ ids next e in
      let (held, forward, stored, free) =
        commit-advances text_before sha256_hex request.commit_checked_at commit db "" 0 applied in
      (held, stored ∙ same)

  -- A sync that reports completion committed while its worker held the lease, and left the mailbox
  -- at the cursor that it reports.
  pub run_acquired-completes :
      (request : SyncRequest) (provided : Provided) (first : Race) (db : CommitTables)
      (ids : List String) (next : Option String)
      → (run_acquired_mailbox_sync_execution text_before sha256_hex request provided first db).0
        ≡ completed ids next
      → (held_by request.mailbox_id request.lease_owner_id request.commit_checked_at db.sync ≡ true)
        × (mailbox_cursor request.mailbox_id
              (run_acquired_mailbox_sync_execution text_before sha256_hex request provided first
                db).1.sync.mailboxes
            ≡ next)
  unfolding run_acquired_mailbox_sync_execution
  run_acquired-completes request provided first db ids next e =
      let (work, db') = race text_before sha256_hex request provided first db in
      let (done, same) = settled-completed request work db' ids next e in
      let (held, stored) = race-committed request provided first db ids next done in
      (
        held,
        release-cursor request (settle request work db').1
            ∙ ap (λ d. mailbox_cursor request.mailbox_id d.sync.mailboxes) same
            ∙ stored,
      )
