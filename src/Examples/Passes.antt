-- ===== src/Examples/Passes.antt =====
-- The passes over the example's mailbox, whose lease runs until 100.
use mailmon.Base.{String, String_discrete, ◌≡◌, refl, Bool, true, some, [], ◌∷◌, map, if◌then◌else◌}
use mailmon.Base.Sort.{text_leq}
use mailmon.Base.Table.{find?}
use mailmon.Base.Texts.{includes}
use mailmon.Examples.Rows.{mailbox_row, sync_tables}
use mailmon.Maintenance.Mailbox.{mailbox_id}
use mailmon.Maintenance.Renewal.{RenewalAnswer, renewal, renew_expiring_mailbox_watches}
use mailmon.Maintenance.Renewal.Untouched.{sync_columns_of, renew_watches-keeps_sync}
use mailmon.Maintenance.Repairs.{list_mailboxes_needing_repair, repair_mailboxes}
use mailmon.Maintenance.Repairs.Resets.{repaired_row, repair_mailboxes-row}
use mailmon.Maintenance.Stuck.{
  list_stuck_mailbox_sync_executions, recover_stuck_mailbox_sync_executions,
}
use mailmon.Maintenance.Stuck.Freed.{freed_row, recover_stuck-row}
use mailmon.Schema.{MailboxRow, mailbox_is}

abbrev accept_all : String → Bool
accept_all id = true

abbrev broken_row : MailboxRow
broken_row = record mailbox_row { last_error_code = some "gmail_history_cursor_invalid" }

abbrev renew : MailboxRow → RenewalAnswer
renew row = renewal "12" 900

repair_mailboxes-row_example :
    find? (mailbox_is "m") (repair_mailboxes text_leq accept_all 100 200 (broken_row ∷ [])).state
    ≡ some (
        if includes "m"
          (map mailbox_id (list_mailboxes_needing_repair text_leq 100 200 (broken_row ∷ [])))
        then repaired_row 200 broken_row
        else broken_row)
unfolding find? String_discrete
repair_mailboxes-row_example =
    repair_mailboxes-row text_leq accept_all 200 100 "m" broken_row (broken_row ∷ []) (λ id. refl)
      (refl, tt) refl

recover_stuck-row_example :
    find?
      (mailbox_is "m")
      (recover_stuck_mailbox_sync_executions text_leq accept_all 100 200 50
        sync_tables).state.mailboxes
    ≡ some (
        if includes "m" (
          map mailbox_id
            (list_stuck_mailbox_sync_executions text_leq 100 200 50 sync_tables.mailboxes))
        then freed_row 200 mailbox_row
        else mailbox_row)
unfolding find? String_discrete
recover_stuck-row_example =
    recover_stuck-row text_leq accept_all 200 50 100 "m" mailbox_row sync_tables (λ id. refl)
      (refl, tt) refl

renew_watches-keeps_sync_example :
    sync_columns_of "m"
      (renew_expiring_mailbox_watches text_leq renew accept_all 100 200 50 (mailbox_row ∷ [])).state
    ≡ sync_columns_of "m" (mailbox_row ∷ [])
renew_watches-keeps_sync_example =
    renew_watches-keeps_sync text_leq renew accept_all 100 200 50 "m" (mailbox_row ∷ [])
