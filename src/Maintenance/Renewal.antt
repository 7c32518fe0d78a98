-- ===== src/Maintenance/Renewal.antt =====
-- renewExpiringMailboxWatches of packages/core/src/mailbox-watch-renewal.ts. The provider of watches
-- is the parameter `renew`.
pub mod Untouched
use mailmon.Base.{
  ℕ, ◌*◌, String, Bool, true, false, ◌||◌, not, Option, none, some, List, [], ◌∷◌, leb,
  if◌then◌else◌, length,
}
use mailmon.Base.Passes.{Left, for_each}
use mailmon.Base.Table.{select_where}
use mailmon.Contracts.{MailboxWatchState, ProblemDetails}
use mailmon.Cursor.{is_watch_history_ahead_of_mailbox_cursor}
use mailmon.Maintenance.Watches.{
  list_mailbox_watches_needing_renewal, mark_mailbox_watch_renewal_started,
  complete_mailbox_watch_renewal, fail_mailbox_watch_renewal,
}
use mailmon.Schema.{MailboxRow}

abbrev default_gmail_watch_renewal_window_ms : ℕ
default_gmail_watch_renewal_window_ms = 24 * 60 * 60000

-- DEFAULT_GMAIL_WATCH_RENEWAL_BATCH_SIZE
abbrev default_gmail_watch_renewal_batch_size : ℕ
default_gmail_watch_renewal_batch_size = 100

-- What the provider answers: MailboxWatchRenewalResult, or a problem.
pub data RenewalAnswer : Type 0 where
  renewal : (history_id : String) (watch_expires_at : ℕ) → RenewalAnswer
  refusal : ProblemDetails → RenewalAnswer

pub record RenewalOutcome : Type 0 where
  pub expired : Bool
  pub renewed : Bool

-- RenewMailboxWatchesResult
pub record RenewMailboxWatchesResult : Type 0 where
  pub completed_at : ℕ
  pub expired : ℕ
  pub expiring : ℕ
  pub failed : ℕ
  pub renewed : ℕ
  pub scanned : ℕ

unfoldable pub is_mailbox_watch_expired : Option ℕ → ℕ → Bool
is_mailbox_watch_expired none observed_at = false
is_mailbox_watch_expired (some at) observed_at = leb at observed_at

abbrev is_expired : MailboxWatchState → Bool
is_expired MailboxWatchState.expired = true
is_expired _ = false

unfoldable pub target_expired : ℕ → MailboxRow → Bool
unfolding is_mailbox_watch_expired
target_expired observed_at target =
    is_expired target.watch_state || is_mailbox_watch_expired target.watch_expiration_at observed_at

-- outcomes.filter(p).length
unfoldable pub count_renewals : (RenewalOutcome → Bool) → List RenewalOutcome → ℕ
unfolding select_where
count_renewals p outcomes = length (select_where p outcomes)

abbrev pub renewal_result_of : ℕ → List MailboxRow → List RenewalOutcome → RenewMailboxWatchesResult
renewal_result_of observed_at targets outcomes = record {
  completed_at = observed_at;
  expired = count_renewals (λ o. o.expired) outcomes;
  expiring = count_renewals (λ o. not o.expired) outcomes;
  failed = count_renewals (λ o. not o.renewed) outcomes;
  renewed = count_renewals (λ o. o.renewed) outcomes;
  scanned = length targets;
}

abbrev pub Renewed : Type 0
Renewed = Left (List MailboxRow) String RenewalOutcome

module _ (text_before : String → String → Bool) (renew : MailboxRow → RenewalAnswer)
    (accepts : String → Bool) where
  -- yield* dispatcher.dispatchMailboxSync(id), the last step of a renewal
  abbrev dispatch_renewed : Bool → String → List MailboxRow → Renewed
  dispatch_renewed expired id mailboxes =
      if accepts id
      then record {
        answer = some record { expired = expired; renewed = true };
        sent = id ∷ [];
        state = mailboxes;
      }
      else record { answer = none; sent = []; state = mailboxes }

  abbrev pub settle_renewal : ℕ → MailboxRow → List MailboxRow → RenewalAnswer → Renewed
  settle_renewal observed_at target mailboxes (refusal problem) = record {
    answer = some record { expired = target_expired observed_at target; renewed = false };
    sent = [];
    state = fail_mailbox_watch_renewal target.id observed_at problem mailboxes;
  }
  settle_renewal observed_at target mailboxes (renewal history_id watch_expires_at) =
      let expired = target_expired observed_at target in
      let completed =
        complete_mailbox_watch_renewal target.id history_id observed_at watch_expires_at
          mailboxes in
      if expired || is_watch_history_ahead_of_mailbox_cursor target.cursor history_id
      then dispatch_renewed expired target.id completed
      else record {
        answer = some record { expired = expired; renewed = true };
        sent = [];
        state = completed;
      }

  unfoldable pub renew_mailbox_watch : ℕ → MailboxRow → List MailboxRow → Renewed
  unfolding target_expired mark_mailbox_watch_renewal_started complete_mailbox_watch_renewal
      fail_mailbox_watch_renewal
  renew_mailbox_watch observed_at target mailboxes =
      settle_renewal observed_at target
        (mark_mailbox_watch_renewal_started target.id observed_at mailboxes) (renew target)

  unfoldable pub renew_expiring_mailbox_watches :
      ℕ → ℕ → ℕ → List MailboxRow → Left (List MailboxRow) String RenewMailboxWatchesResult
  unfolding renew_mailbox_watch for_each list_mailbox_watches_needing_renewal count_renewals
  renew_expiring_mailbox_watches limit observed_at renewal_window_ms mailboxes =
      let targets =
        list_mailbox_watches_needing_renewal text_before limit observed_at renewal_window_ms
          mailboxes in
      let left = for_each (renew_mailbox_watch observed_at) targets mailboxes in
      record {
        answer = elim left.answer [
          | none ↦ none
          | some outcomes ↦ some (renewal_result_of observed_at targets outcomes)
        ];
        sent = left.sent;
        state = left.state;
      }
