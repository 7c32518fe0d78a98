-- ===== src/Examples/Sync.antt =====
-- The lease on the example's mailbox.
use mailmon.Base.{none, unequal, ℕ, ◌≡◌, refl, true, List, [], ◌∷◌, String_discrete, arith}
use mailmon.Base.Table.{find?}
use mailmon.Connect.Tables.{ConnectSessionRow}
use mailmon.Examples.Commits.{commit_by, digest, later_first, tables}
use mailmon.Execution.Exclusion.{run_writes-held_by}
use mailmon.Execution.Writes.{LeaseWrite, calls, commits, reconnects, run_writes}
use mailmon.Lease.{LeaseRequest, RenewalRequest}
use mailmon.Lease.Calls.{acquires, releases, held_by}

abbrev request : ℕ → LeaseRequest
request at = record {
  mailbox_id = "m";
  sync_run_id = "r2";
  lease_owner_id = "other";
  acquired_at = at;
  expires_at = 200;
}

abbrev heartbeat : RenewalRequest
heartbeat = record {
  mailbox_id = "m";
  lease_owner_id = "worker";
  heartbeat_at = 20;
  expires_at = 120;
}

abbrev session : ConnectSessionRow
session = record {
  id = "s";
  provider = "gmail";
  workspace_id = "w";
  tenant_external_id = "t";
  mailbox_external_id = "y";
  redirect_url = "u";
  code_verifier = "v";
  expires_at = 900;
  mailbox_id = none;
  completed_at = none;
  created_at = 0;
  updated_at = 0;
}

abbrev writes : List LeaseWrite
writes =
    calls (acquires (request 30))
    ∷ commits 35 (commit_by "other")
    ∷ calls (releases 40 "m" "other")
    ∷ reconnects session "c@d.e" 45 "n"
    ∷ []

run_writes-held_by_example :
    held_by "m" "worker" 50 (run_writes later_first digest writes tables).sync ≡ true
unfolding find? String_discrete
run_writes-held_by_example =
    run_writes-held_by later_first digest "m" "worker" 50 writes tables (refl, tt)
      (
        omega arith,
        (
          unequal "other" "worker" refl,
          (unequal "other" "worker" refl, (unequal "n" "m" refl, tt)),
        ),
      )
      refl
