-- ===== src/Maintenance/Renewal/Untouched.antt =====
-- What a pass of renewals leaves alone, and how it counts.
use mathlib.Core.Option
use mailmon.Base.{
  ℕ, ◌+◌, String, ◌≡◌, refl, ◌∙◌, ap, sym, Bool, true, false, not, Option, none, some, List, [],
  ◌∷◌, arith, if◌then◌else◌, length, inl, inr, Bool-cases,
}
use mailmon.Base.Passes.{for_each, for_each-keeps, for_each-answers}
use mailmon.Base.Table.{find?, update_where, find?-update_where, select_where}
use mailmon.Maintenance.Renewal.{
  RenewalAnswer, renewal, refusal, RenewalOutcome, RenewMailboxWatchesResult, settle_renewal,
  renew_mailbox_watch, renew_expiring_mailbox_watches, count_renewals, renewal_result_of,
}
use mailmon.Maintenance.Watches.{
  renew_columns, mark_mailbox_watch_renewal_started, complete_mailbox_watch_renewal,
  fail_mailbox_watch_renewal, list_mailbox_watches_needing_renewal,
}
use mailmon.OperationalState.Update.{apply_transition}
use mailmon.Schema.{MailboxRow, mailbox_is}

-- The columns of a mailbox that only syncs write.
pub record SyncColumns : Type 0 where
  pub cursor : Option String
  pub lease_owner : Option String
  pub lease_acquired_at : Option ℕ
  pub lease_heartbeat_at : Option ℕ
  pub lease_expires_at : Option ℕ
  pub sync_run_id : Option String
  pub last_successful_sync_at : Option ℕ

abbrev pub sync_columns : MailboxRow → SyncColumns
sync_columns row = record {
  cursor = row.cursor;
  lease_owner = row.active_sync_lease_owner;
  lease_acquired_at = row.active_sync_lease_acquired_at;
  lease_heartbeat_at = row.active_sync_lease_heartbeat_at;
  lease_expires_at = row.active_sync_lease_expires_at;
  sync_run_id = row.active_sync_run_id;
  last_successful_sync_at = row.last_successful_sync_at;
}

abbrev pub sync_columns_of : String → List MailboxRow → Option SyncColumns
sync_columns_of id mailboxes = Option.map sync_columns (find? (mailbox_is id) mailboxes)

map-kept :
    (p : MailboxRow → Bool) (f : MailboxRow → MailboxRow) (o : Option MailboxRow)
    → ((row : MailboxRow) → sync_columns (f row) ≡ sync_columns row)
    → Option.map sync_columns (Option.map (λ x. if p x then f x else x) o)
      ≡ Option.map sync_columns o
map-kept p f none keep = refl
map-kept p f (some row) keep = elim (Bool-cases (p row)) [
  | inl hit ↦ rw hit (ap some (keep row))
  | inr miss ↦ rw miss refl
]

update-sync_columns :
    (id : String) (p : MailboxRow → Bool) (f : MailboxRow → MailboxRow) (rows : List MailboxRow)
    → ((row : MailboxRow) → (f row).id ≡ row.id)
    → ((row : MailboxRow) → sync_columns (f row) ≡ sync_columns row)
    → sync_columns_of id (update_where p f rows) ≡ sync_columns_of id rows
update-sync_columns id p f rows same keep =
    ap (Option.map sync_columns) (find?-update_where p (mailbox_is id) f rows (λ row. rw same))
    ∙ map-kept p f (find? (mailbox_is id) rows) keep

renew-id :
    (history_id : String) (at expires_at : ℕ) (clear : Bool) (row : MailboxRow)
    → (renew_columns history_id at expires_at clear row).id ≡ row.id
renew-id history_id at expires_at true row = refl
renew-id history_id at expires_at false row = refl

renew-sync_columns :
    (history_id : String) (at expires_at : ℕ) (clear : Bool) (row : MailboxRow)
    → sync_columns (renew_columns history_id at expires_at clear row) ≡ sync_columns row
renew-sync_columns history_id at expires_at true row = refl
renew-sync_columns history_id at expires_at false row = refl

count-split :
    (p : RenewalOutcome → Bool) (outcomes : List RenewalOutcome)
    → count_renewals p outcomes + count_renewals (λ o. not (p o)) outcomes ≡ length outcomes
unfolding count_renewals select_where
count-split p [] = refl
count-split p (o ∷ outcomes) = ground (arith, count-split p outcomes)

result-ended :
    (at : ℕ) (targets : List MailboxRow) (answer : Option (List RenewalOutcome))
    (result : RenewMailboxWatchesResult)
    → elim answer [ none ↦ none | some outcomes ↦ some (renewal_result_of at targets outcomes) ]
      ≡ some result
    → (outcomes : List RenewalOutcome) × (answer ≡ some outcomes)
      × (renewal_result_of at targets outcomes ≡ result)
result-ended at targets none result e = absurd (ground (arith, e))
result-ended at targets (some outcomes) result e = (outcomes, refl, ground (arith, e))

module _ (text_before : String → String → Bool) (renew : MailboxRow → RenewalAnswer)
    (accepts : String → Bool) where
  renewed-state :
      (at : ℕ) (target : MailboxRow) (rows : List MailboxRow) (history_id : String) (expires_at : ℕ)
      → (settle_renewal text_before renew accepts at target rows
          (renewal history_id expires_at)).state
        ≡ complete_mailbox_watch_renewal target.id history_id at expires_at rows
  renewed-state at target rows history_id expires_at = ground arith

  settle-sync_columns :
      (id : String) (at : ℕ) (target : MailboxRow) (rows : List MailboxRow) (answer : RenewalAnswer)
      → sync_columns_of id (settle_renewal text_before renew accepts at target rows answer).state
        ≡ sync_columns_of id rows
  unfolding complete_mailbox_watch_renewal fail_mailbox_watch_renewal apply_transition
  settle-sync_columns id at target rows (refusal problem) =
      update-sync_columns id _ _ rows (λ row. refl) (λ row. refl)
  settle-sync_columns id at target rows (renewal history_id expires_at) =
      ap (sync_columns_of id) (renewed-state at target rows history_id expires_at)
      ∙ update-sync_columns id _ _ rows (renew-id history_id at expires_at _)
          (renew-sync_columns history_id at expires_at _)

  mark-sync_columns :
      (id target_id : String) (at : ℕ) (rows : List MailboxRow)
      → sync_columns_of id (mark_mailbox_watch_renewal_started target_id at rows)
        ≡ sync_columns_of id rows
  unfolding mark_mailbox_watch_renewal_started
  mark-sync_columns id target_id at rows =
      update-sync_columns id _ _ rows (λ row. refl) (λ row. refl)

  renew-sync_columns_of :
      (id : String) (at : ℕ) (target : MailboxRow) (rows : List MailboxRow)
      → sync_columns_of id (renew_mailbox_watch text_before renew accepts at target rows).state
        ≡ sync_columns_of id rows
  unfolding renew_mailbox_watch
  renew-sync_columns_of id at target rows =
      settle-sync_columns id at target (mark_mailbox_watch_renewal_started target.id at rows)
        (renew target)
      ∙ mark-sync_columns id target.id at rows

  -- A pass of watch renewals leaves the cursor, the lease, the run and the last success of every
  -- mailbox alone, whatever Gmail and the dispatcher answer, also if the pass dies half way.
  pub renew_watches-keeps_sync :
      (limit at window : ℕ) (id : String) (rows : List MailboxRow)
      → sync_columns_of id
          (renew_expiring_mailbox_watches text_before renew accepts limit at window rows).state
        ≡ sync_columns_of id rows
  unfolding renew_expiring_mailbox_watches
  renew_watches-keeps_sync limit at window id rows =
      for_each-keeps (λ state. sync_columns_of id state ≡ sync_columns_of id rows)
        (renew_mailbox_watch text_before renew accepts at)
        (λ target state h. renew-sync_columns_of id at target state ∙ h)
        (list_mailbox_watches_needing_renewal text_before limit at window rows) rows refl

  -- A pass of watch renewals that ends counts each target once: the renewed and the failed ones are
  -- the scanned ones, and so are those that had expired and those that had not.
  pub renew_watches-counts :
      (limit at window : ℕ) (rows : List MailboxRow) (result : RenewMailboxWatchesResult)
      → (renew_expiring_mailbox_watches text_before renew accepts limit at window rows).answer
        ≡ some result
      → (result.renewed + result.failed ≡ result.scanned)
        × (result.expired + result.expiring ≡ result.scanned)
  unfolding renew_expiring_mailbox_watches
  renew_watches-counts limit at window rows result e =
      let targets = list_mailbox_watches_needing_renewal text_before limit at window rows in
      let (outcomes, ended, is_result) =
        result-ended at targets
          (for_each (renew_mailbox_watch text_before renew accepts at) targets rows).answer result
          e in
      let counted =
        for_each-answers (renew_mailbox_watch text_before renew accepts at) targets rows outcomes
          ended in
      (
        rw (sym is_result) (count-split (λ o. o.renewed) outcomes ∙ counted),
        rw (sym is_result) (count-split (λ o. o.expired) outcomes ∙ counted),
      )
