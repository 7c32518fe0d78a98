-- ===== src/Gmail/Pages/Complete.antt =====
-- The loop over the pages of a history reads every page.
use mathlib.Core.List.{append_assoc}
use mailmon.Base.{
  ℕ, zero, suc, ◌≤◌, String, ◌≡◌, refl, ap, ◌∙◌, Option, none, some, List, [], ◌++◌, arith,
}
use mailmon.Gmail.History.{GmailHistoryRecord}
use mailmon.Gmail.Pages.{
  HttpAnswer, listed, read_page, records_of, list_from, list_gmail_history_pages,
}
use mailmon.Gmail.Parsers.{Fetched, fetched, GmailHistoryListResponse}

module _ (get_json : Option String → HttpAnswer) (cursor : String) where
  abbrev pub page_at : Option String → Fetched GmailHistoryListResponse
  page_at token = read_page cursor (get_json token)

  -- The answers from a token on are pages that name each other and end, with these records, this last
  -- history id, and this number of pages.
  pub data Answers : Option String → List GmailHistoryRecord → String → ℕ → Type 0 where
    last_page :
        {token : Option String} (page : GmailHistoryListResponse)
        → page_at token ≡ fetched page
        → page.next_page_token ≡ none
        → Answers token (records_of page.history) page.history_id 1
    then_page :
        {token : Option String} (page : GmailHistoryListResponse) (next : String)
        {records : List GmailHistoryRecord} {history_id : String} {count : ℕ}
        → page_at token ≡ fetched page
        → page.next_page_token ≡ some next
        → Answers (some next) records history_id count
        → Answers token (records_of page.history ++ records) history_id (suc count)

  list_from-reads :
      (fuel : ℕ) {token : Option String} {records : List GmailHistoryRecord} {history_id : String}
      {count : ℕ}
      → count ≤ fuel
      → Answers token records history_id count
      → (before : List GmailHistoryRecord)
      → list_from get_json cursor fuel token before
        ≡ listed record { history_records = before ++ records; next_cursor = history_id }
  unfolding list_from
  list_from-reads zero enough (last_page page e ended) before = absurd (omega (arith, enough))
  list_from-reads zero enough (then_page page next e more rest) before =
      absurd (omega (arith, enough))
  list_from-reads (suc fuel) enough (last_page page e ended) before = rw e (rw ended refl)
  list_from-reads (suc fuel) enough (then_page page next {records} {history_id} e more rest)
        before =
      rw e (
        rw more (
          list_from-reads fuel (omega (arith, enough)) rest (before ++ records_of page.history)
          ∙ ap (λ rs. listed record { history_records = rs; next_cursor = history_id })
              (append_assoc before (records_of page.history) records)))

  -- Where Gmail's answers, from the first page on, are pages that name each other and end after
  -- `count` of them, the loop in at least `count` rounds lists the records of all pages in their
  -- order, with the history id of the last page as the next cursor.
  pub list_pages-reads_all :
      (fuel count : ℕ) (records : List GmailHistoryRecord) (history_id : String)
      → Answers none records history_id count
      → count ≤ fuel
      → list_gmail_history_pages get_json cursor fuel
        ≡ listed record { history_records = records; next_cursor = history_id }
  unfolding list_gmail_history_pages
  list_pages-reads_all fuel count records history_id answers enough =
      list_from-reads fuel enough answers []
