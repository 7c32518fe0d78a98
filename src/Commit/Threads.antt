-- ===== src/Commit/Threads.antt =====
-- recalculateThreadsByProviderThreadId of packages/db/src/persistence/mailbox-sync-commit.ts.
use mailmon.Base.{String, Bool, not, ◌&&◌, ◌||◌, none, some, List, [], ◌∷◌, ◌++◌, ltb, eqb, ◌==◌}
use mailmon.Base.Sort.{sort_by}
use mailmon.Base.Table.{find?, select_where}
use mailmon.Base.Texts.{includes}
use mailmon.Canonical.{to_canonical_thread_from_message_row}
use mailmon.Contracts.{CanonicalThreadRecord}
use mailmon.Schema.{MessageRow}

-- The order of the rows of recalculateThreadsByProviderThreadId, in a database that orders texts by
-- `text_before`.
module _ (text_before : String → String → Bool) where
  abbrev row_leq : MessageRow → MessageRow → Bool
  row_leq a b =
      text_before a.provider_thread_id b.provider_thread_id
      || not (text_before b.provider_thread_id a.provider_thread_id)
        && (ltb b.received_at a.received_at
            || eqb b.received_at a.received_at && not (text_before a.id b.id))

  -- A `Map` in the order of insertion: the first row of a thread stays.
  unfoldable pub first_of_each :
      List MessageRow → List CanonicalThreadRecord → List CanonicalThreadRecord
  unfolding find?
  first_of_each [] threads = threads
  first_of_each (row ∷ rows) threads =
      first_of_each rows
        (elim (find? (λ (t : CanonicalThreadRecord). t.provider_thread_id == row.provider_thread_id)
          threads) [
            | some _ ↦ threads
            | none ↦ threads ++ to_canonical_thread_from_message_row row ∷ []
          ])

  unfoldable pub recalculate_threads :
      String → List String → List MessageRow → List CanonicalThreadRecord
  unfolding first_of_each select_where includes sort_by
  recalculate_threads mailbox_id ids messages =
      first_of_each
        (sort_by row_leq (
          select_where (λ row. row.mailbox_id == mailbox_id && includes row.provider_thread_id ids)
            messages))
        []
