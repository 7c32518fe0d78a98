-- ===== src/Maintenance/Repairs/Resets.antt =====
-- What a pass of repairs does to each mailbox.
use mailmon.Contracts.{MailboxSyncState}
use mailmon.Base.{
  is_text, none, ℕ, All, map, String, String_discrete, ◌≡◌, refl, Bool, true, some, List, arith,
  if◌then◌else◌, inl, inr, Bool-cases, Option-cases, subst,
}
use mailmon.Base.Passes.{for_each, for_each-keeps_at, for_each-reaches}
use mailmon.Base.Queries.{All-query, All-keyed, All-unlisted}
use mailmon.Base.Texts.{includes}
use mailmon.Base.Table.{KeyUnique, find?, update_where, find?_sound}
use mailmon.Maintenance.Mailbox.{mailbox_id, Stands, updated-Stands, passed-Stands, IsTarget}
use mailmon.Maintenance.Repairs.{
  RepairOutcome, has_invalid_cursor, to_mailbox_repair_target, needs_repair, repairable,
  prepare_columns, prepare_mailbox_for_repair, repair_mailbox, list_mailboxes_needing_repair,
  repair_mailboxes,
}
use mailmon.Schema.{MailboxRow, mailbox_is}

-- A repair resets the cursor of a mailbox if its row says that Gmail refused it.
abbrev pub repaired_row : ℕ → MailboxRow → MailboxRow
repaired_row at row = record row {
  cursor = if is_text row.last_error_code "gmail_history_cursor_invalid" then none else row.cursor;
  sync_state = MailboxSyncState.lagging;
  updated_at = at;
}

reset_iff_invalid :
    (row : MailboxRow)
    → (to_mailbox_repair_target row).requires_cursor_reset ≡ has_invalid_cursor row
unfolding to_mailbox_repair_target
reset_iff_invalid row = ground arith

repaired_row_twice :
    (at : ℕ) (row : MailboxRow)
    → prepare_columns at (has_invalid_cursor row) (repaired_row at row) ≡ repaired_row at row
repaired_row_twice at row = ground arith

module _ (text_before : String → String → Bool) (accepts : String → Bool) (at : ℕ) where
  -- The update is made, whatever the dispatcher answers.
  repaired :
      (target : MailboxRow) (mailboxes : List MailboxRow)
      → (repair_mailbox text_before accepts at target mailboxes).state
        ≡ update_where
            (repairable target.id)
            (prepare_columns at (to_mailbox_repair_target target).requires_cursor_reset)
            mailboxes
  unfolding repair_mailbox prepare_mailbox_for_repair to_mailbox_repair_target
  repaired target mailboxes = ground arith

  repair-target :
      (id : String) (row target : MailboxRow) (mailboxes : List MailboxRow)
      → target.id ≡ id
      → IsTarget (needs_repair at) id row target
      → Stands id row mailboxes
      → Stands id
          (repaired_row at row)
          (repair_mailbox text_before accepts at target mailboxes).state
  repair-target id row target mailboxes same (is_row, needs) stands =
      rw (repaired target mailboxes) (
        rw (is_row same) (
          rw (reset_iff_invalid row) (
            updated-Stands id row (repairable row.id) (prepare_columns at (has_invalid_cursor row))
              mailboxes (λ x. refl) (ground (arith, rw (is_row same) at needs)) stands)))

  repair-repaired :
      (id : String) (row target : MailboxRow) (mailboxes : List MailboxRow)
      → IsTarget (needs_repair at) id row target
      → Stands id (repaired_row at row) mailboxes
      → Stands id
          (repaired_row at row)
          (repair_mailbox text_before accepts at target mailboxes).state
  repair-repaired id row target mailboxes (is_row, needs) stands =
      elim (String_discrete target.id id) [
        | yes same ↦ rw (repaired target mailboxes) (
            rw (is_row same) (
              rw (reset_iff_invalid row) (
                subst
                  (λ r. Stands id r (
                    update_where (repairable row.id) (prepare_columns at (has_invalid_cursor row))
                      mailboxes))
                  (repaired_row_twice at row)
                  (updated-Stands id (repaired_row at row) (repairable row.id)
                    (prepare_columns at (has_invalid_cursor row)) mailboxes (λ x. refl)
                    (ground (arith, rw (is_row same) at needs)) stands))))
        | no different ↦ rw (repaired target mailboxes) (
            passed-Stands id (repaired_row at row) (repairable target.id) _ mailboxes (λ x. refl)
              (ground (arith, different, find?_sound (mailbox_is id) mailboxes _ stands.1)) stands)
      ]

  repair-other :
      (id : String) (row target : MailboxRow) (mailboxes : List MailboxRow)
      → ¬ (target.id ≡ id)
      → Stands id row mailboxes
      → Stands id row (repair_mailbox text_before accepts at target mailboxes).state
  repair-other id row target mailboxes different stands = rw (repaired target mailboxes) (
      passed-Stands id row (repairable target.id) _ mailboxes (λ x. refl)
        (ground (arith, different, find?_sound (mailbox_is id) mailboxes _ stands.1)) stands)

  repair_mailbox-answers :
      ((id : String) → accepts id ≡ true)
      → (target : MailboxRow) (mailboxes : List MailboxRow)
      → (outcome : RepairOutcome) × ((repair_mailbox text_before accepts at target mailboxes).answer
          ≡ some outcome)
  unfolding repair_mailbox prepare_mailbox_for_repair to_mailbox_repair_target
  repair_mailbox-answers all target mailboxes =
      elim (Option-cases (find? (repairable target.id) mailboxes)) [
        | inl e ↦ rw (e, repair_mailbox, prepare_mailbox_for_repair) (_, refl)
        | inr (row, e) ↦
            rw (e, repair_mailbox, prepare_mailbox_for_repair) (rw (all target.id) (_, refl))
      ]

  repair_each-Stands :
      (id : String) (row : MailboxRow) (targets mailboxes : List MailboxRow)
      → ((name : String) → accepts name ≡ true)
      → All (IsTarget (needs_repair at) id row) targets
      → Stands id row mailboxes
      → Stands id
          (if includes id (map mailbox_id targets) then repaired_row at row else row)
          (for_each (repair_mailbox text_before accepts at) targets mailboxes).state
  repair_each-Stands id row targets mailboxes all are_targets stands =
      elim (Bool-cases (includes id (map mailbox_id targets))) [
        | inl listed ↦ rw listed (
            for_each-reaches (Stands id row) (Stands id (repaired_row at row))
              (IsTarget (needs_repair at) id row) mailbox_id id
              (repair_mailbox text_before accepts at) (repair_mailbox-answers all)
              (λ target rows same is h. repair-target id row target rows same is h)
              (λ target rows different h. repair-other id row target rows different h)
              (λ target rows is h. repair-repaired id row target rows is h) targets mailboxes
              are_targets listed stands)
        | inr unlisted ↦ rw unlisted (
            for_each-keeps_at (Stands id row) (λ target. ¬ (target.id ≡ id))
              (repair_mailbox text_before accepts at)
              (λ target rows different h. repair-other id row target rows different h) targets
              mailboxes (All-unlisted mailbox_id id targets unlisted) stands)
      ]

  -- If the dispatcher accepts every sync and mailbox ids are unique, then a pass of repairs leaves
  -- each mailbox of its batch marked as lagging, without its cursor exactly if its last error was an
  -- invalid history cursor, and every other mailbox as it was. The batch is the first `limit`
  -- active Gmail mailboxes that no running lease holds and whose cursor is invalid or whose watch
  -- failed.
  pub repair_mailboxes-row :
      (limit : ℕ) (id : String) (row : MailboxRow) (mailboxes : List MailboxRow)
      → ((name : String) → accepts name ≡ true)
      → KeyUnique mailbox_id mailboxes
      → find? (mailbox_is id) mailboxes ≡ some row
      → find? (mailbox_is id) (repair_mailboxes text_before accepts limit at mailboxes).state
        ≡ some (
            if includes id
              (map mailbox_id (list_mailboxes_needing_repair text_before limit at mailboxes))
            then repaired_row at row
            else row)
  unfolding repair_mailboxes list_mailboxes_needing_repair
  repair_mailboxes-row limit id row mailboxes all unique found =
      (repair_each-Stands id row (list_mailboxes_needing_repair text_before limit at mailboxes)
        mailboxes all
        (All-query (λ target. target.id ≡ id → target ≡ row) (IsTarget (needs_repair at) id row) _
          (needs_repair at) limit mailboxes (λ target needs is_row. (is_row, needs))
          (All-keyed mailbox_id id row mailboxes unique found))
        (unique, found)).1
