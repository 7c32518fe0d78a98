-- ===== src/Commit/Cursors.antt =====
-- The cursor of a mailbox over a sequence of commits.

use mailmon.Base.{
  ℕ, ◌≤◌, String, ◌≡◌, ◌≢◌, refl, sym, ap, subst, ◌∙◌, inl, inr, Bool, true, Option, some, List, [],
  ◌∷◌, arith, Option-cases, String_discrete,
}
use mailmon.Base.Table.{find?, find?_sound}
use mailmon.Commit.Finalized.{finalized_mailbox}
use mailmon.Commit.Fencing.{commit-advances, commit-all_or_nothing}
use mailmon.Commit.Guarded.{is_applied, commit_at, commit_cases}
use mailmon.Commit.State.{CommitTables, Commit}
use mailmon.Cursor.{parse_decimal_history_cursor, is_mailbox_cursor_regression}
use mailmon.Cursor.Order.{decimal-not_regression}
use mailmon.Schema.{mailbox_is}
use mailmon.SyncRuns.{mailbox_cursor}

module _ (text_before : String → String → Bool) (sha256_hex : String → String) where
  unfoldable pub run_commits : List (ℕ × Commit) → CommitTables → CommitTables
  run_commits [] db = db
  run_commits ((now, commit) ∷ commits) db =
      run_commits commits (commit_at text_before sha256_hex now commit db).1

  -- A commit leaves the cursors of the other mailboxes alone.
  commit-other_cursor :
      (now : ℕ) (commit : Commit) (db : CommitTables) (id : String)
      → commit.mailbox_id ≢ id
      → mailbox_cursor id (commit_at text_before sha256_hex now commit db).1.sync.mailboxes
        ≡ mailbox_cursor id db.sync.mailboxes
  commit-other_cursor now commit db id other =
      elim (commit_cases text_before sha256_hex now commit db) [
        | inl (idle, same) ↦ rw same refl
        | inr (row, found, inl (idle, same)) ↦ rw same refl
        | inr (row, found, inr (guard, forward, wrote, done)) ↦
            rw (finalized_mailbox commit _ row db.sync _ done.0 id, mailbox_cursor)
              (elim (Option-cases (find? (mailbox_is id) db.sync.mailboxes)) [
                | inl e ↦ rw (e, mailbox_cursor) refl
                | inr (r, e) ↦
                    rw (e, mailbox_cursor)
                      (ground (arith, find?_sound (mailbox_is id) db.sync.mailboxes r e, other))
              ])
      ]

  abbrev AtLeast : ℕ → Option String → Type 0
  AtLeast n cursor =
      (t : String) × (m : ℕ) × (cursor ≡ some t)
      × (parse_decimal_history_cursor t ≡ some m)
      × (n ≤ m)

  commit-keeps_order :
      (now : ℕ) (commit : Commit) (db : CommitTables) (id : String) (n : ℕ)
      → AtLeast n (mailbox_cursor id db.sync.mailboxes)
      → AtLeast n
          (mailbox_cursor id (commit_at text_before sha256_hex now commit db).1.sync.mailboxes)
  commit-keeps_order now commit db id n (t, m, e, parsed, le) =
      elim (String_discrete commit.mailbox_id id) [
        | no other ↦ (t, m, commit-other_cursor now commit db id other ∙ e, parsed, le)
        | yes same ↦ elim (commit-all_or_nothing text_before sha256_hex now commit db) [
          | inr idle ↦ rw idle (t, m, e, parsed, le)
          | inl applied ↦
              subst
                (λ i. AtLeast n (
                  mailbox_cursor i
                    (commit_at text_before sha256_hex now commit db).1.sync.mailboxes))
                same (moved same applied)
        ]
      ]
    where
      moved :
          commit.mailbox_id ≡ id
          → is_applied (commit_at text_before sha256_hex now commit db).0 ≡ true
          → AtLeast n (
              mailbox_cursor commit.mailbox_id
                (commit_at text_before sha256_hex now commit db).1.sync.mailboxes)
      moved same applied =
          let (held, forward, stored, free) =
            commit-advances text_before sha256_hex now commit db "" 0 applied in
          let before : mailbox_cursor commit.mailbox_id db.sync.mailboxes ≡ some t =
            ap (λ i. mailbox_cursor i db.sync.mailboxes) same ∙ e in
          let (t', m', e', parsed', le') =
            decimal-not_regression t m commit.next_cursor parsed (
              ap (λ c. is_mailbox_cursor_regression c commit.next_cursor) (sym before) ∙ forward) in
          (t', m', stored ∙ e', parsed', omega (arith, le, le'))

  -- Once the cursor of a mailbox is a decimal history id, every sequence of commits, on whatever
  -- mailboxes and at whatever times, leaves it a decimal history id that is not smaller.
  pub run_commits-cursor :
      (commits : List (ℕ × Commit)) (db : CommitTables) (id : String) (n : ℕ)
      → AtLeast n (mailbox_cursor id db.sync.mailboxes)
      → AtLeast n (mailbox_cursor id (run_commits commits db).sync.mailboxes)
  unfolding run_commits
  run_commits-cursor [] db id n least = least
  run_commits-cursor ((now, commit) ∷ commits) db id n least =
      run_commits-cursor commits (commit_at text_before sha256_hex now commit db).1 id n
        (commit-keeps_order now commit db id n least)
