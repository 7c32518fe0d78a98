-- ===== src/Lease/Exclusion.antt =====
-- No call of the coordinator, of the recovery or of the run records that another worker makes takes
-- a running lease away.

use mailmon.Base.{ℕ, ◌≤◌, String, ◌≡◌, ◌≢◌, true}
use mailmon.Schema.{SyncTables}
use mailmon.SyncRuns.{start_sync_run}
use mailmon.Lease.Calls.{
  LeaseCall, acquires, renews, releases, recovers, exhausts, starts, completes, step, held_by,
  MailboxIdsUnique,
}
use mailmon.Lease.Held.{
  held-acquire, held-renew, held-release, held-recover, held-exhaust, held-complete_sync_run,
}

-- A call of another worker, or one that cannot name a time after `at` for the lease to be over.
abbrev pub Foreign : String → ℕ → LeaseCall → Type 0
Foreign owner at (acquires lease) = lease.acquired_at ≤ at
Foreign owner at (renews lease) = lease.lease_owner_id ≢ owner
Foreign owner at (releases now mailbox_id other) = other ≢ owner
Foreign owner at (recovers mailbox_id observed_at run) = observed_at ≤ at
Foreign owner at _ = Unit

pub step-held_by :
    (mailbox_id owner : String) (at : ℕ) (call : LeaseCall) (db : SyncTables)
    → MailboxIdsUnique db
    → Foreign owner at call
    → held_by mailbox_id owner at db ≡ true
    → held_by mailbox_id owner at (step call db) ≡ true
unfolding step
step-held_by m o t (acquires lease) db u f h = held-acquire m o t lease db f h
step-held_by m o t (renews lease) db u f h = held-renew m o t lease db f h
step-held_by m o t (releases now id other) db u f h = held-release m o t now id other db f h
step-held_by m o t (recovers id at run) db u f h = held-recover m o t id at run db u f h
step-held_by m o t (exhausts id at run) db u f h = held-exhaust m o t id at run db h
step-held_by m o t (starts id now mailbox_id) db u f h = unfold start_sync_run in h
step-held_by m o t (completes result) db u f h = held-complete_sync_run m o t result db h
