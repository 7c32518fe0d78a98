-- ===== src/Gmail/Pages.antt =====
-- listGmailHistoryPages and listGmailHistoryDelta of packages/gmail/src/history.ts. The HTTP client
-- is the parameter `get_json`, which answers for a page token; the fetch of a message is the
-- parameter `get_message`.
pub mod Complete
use Prim.Native.String.{◌++◌ as append}
use mailmon.Base.{
  ℕ, zero, suc, String, Bool, false, not, ◌&&◌, Option, none, some, List, [], ◌∷◌, ◌++◌, eqb, leb,
  if◌then◌else◌,
}
use mailmon.Base.Decimal.{decimal}
use mailmon.Contracts.{ProblemDetails}
use mailmon.Gmail.History.{GmailHistoryRecord, Compaction, compact_gmail_history_records}
use mailmon.Gmail.Parsers.{
  Fetched, threw, fetched, GmailHistoryListResponse, make_gmail_problem,
  make_gmail_rate_limited_problem, is_gmail_rate_limited_response,
  parse_gmail_history_list_response,
}
use mailmon.Gmail.Projection.{GmailMessageResponse}
use mailmon.Json.{Json}

-- The status and the body of an answer.
pub record HttpAnswer : Type 0 where
  pub status : ℕ
  pub body : Json

pub record HistoryPages : Type 0 where
  pub history_records : List GmailHistoryRecord
  pub next_cursor : String

-- GmailHistoryDelta
pub record GmailHistoryDelta : Type 0 where
  pub deleted_message_ids : List String
  pub messages : List GmailMessageResponse
  pub next_cursor : String

-- response.ok
abbrev is_ok : ℕ → Bool
is_ok status = leb 200 status && leb status 299

abbrev cursor_invalid : String → ProblemDetails
cursor_invalid cursor =
    make_gmail_problem "gmail_history_cursor_invalid"
      (append "Stored Gmail history cursor "
        (append cursor " is invalid or expired and requires a full resync."))
      false 409

abbrev fetch_failed : ℕ → ProblemDetails
fetch_failed status =
    make_gmail_problem "gmail_history_fetch_failed"
      (append "Fetching Gmail history failed with HTTP " (append (decimal status) "."))
      (leb 500 status) status

-- One round of the loop: the answer for a page.
unfoldable pub read_page : String → HttpAnswer → Fetched GmailHistoryListResponse
unfolding is_gmail_rate_limited_response parse_gmail_history_list_response decimal
read_page cursor answer =
    if eqb answer.status 404
    then threw (cursor_invalid cursor)
    else if not (is_ok answer.status)
    then (if is_gmail_rate_limited_response answer.status answer.body
        then threw (make_gmail_rate_limited_problem "sync operations" answer.status)
        else threw (fetch_failed answer.status))
    else parse_gmail_history_list_response answer.body

-- parsedResponse.history ?? []
abbrev pub records_of : Option (List GmailHistoryRecord) → List GmailHistoryRecord
records_of none = []
records_of (some records) = records

-- The loop, which may be cut off.
pub data Listing : Type 0 where
  cut_off : Listing
  failed : ProblemDetails → Listing
  listed : HistoryPages → Listing

module _ (get_json : Option String → HttpAnswer) (cursor : String) where
  -- After a page: the loop goes on with its token, if it has one.
  abbrev after_page :
      List GmailHistoryRecord
      → (Option String → List GmailHistoryRecord → Listing)
      → Fetched GmailHistoryListResponse
      → Listing
  after_page records next (threw problem) = failed problem
  after_page records next (fetched page) = elim page.next_page_token [
    | none ↦ listed record {
      history_records = records ++ records_of page.history;
      next_cursor = page.history_id;
    }
    | some token ↦ next (some token) (records ++ records_of page.history)
  ]

  -- do { … } while (pageToken !== undefined), in at most `fuel` rounds
  unfoldable pub list_from : ℕ → Option String → List GmailHistoryRecord → Listing
  unfolding read_page
  list_from zero token records = cut_off
  list_from (suc fuel) token records =
      after_page records (list_from fuel) (read_page cursor (get_json token))

  unfoldable pub list_gmail_history_pages : ℕ → Listing
  unfolding list_from
  list_gmail_history_pages fuel = list_from fuel none []

module _ (get_message : String → Fetched (Option GmailMessageResponse)) where
  abbrev keep_message :
      Fetched (Option GmailMessageResponse)
      → Fetched (List GmailMessageResponse)
      → Fetched (List GmailMessageResponse)
  keep_message (threw problem) rest = threw problem
  keep_message (fetched message) (threw problem) = threw problem
  keep_message (fetched none) (fetched rest) = fetched rest
  keep_message (fetched (some message)) (fetched rest) = fetched (message ∷ rest)

  -- Promise.all(ids.map(getMessage)), without the messages that are gone.
  unfoldable pub get_messages : List String → Fetched (List GmailMessageResponse)
  get_messages [] = fetched []
  get_messages (id ∷ ids) = keep_message (get_message id) (get_messages ids)

  abbrev delta_of :
      Compaction → String → Fetched (List GmailMessageResponse) → Fetched GmailHistoryDelta
  delta_of compaction next_cursor (threw problem) = threw problem
  delta_of compaction next_cursor (fetched messages) = fetched record {
    deleted_message_ids = compaction.deleted_message_ids;
    messages = messages;
    next_cursor = next_cursor;
  }

  -- Without an answer if the listing is cut off.
  abbrev pub delta_of_listing : Listing → Option (Fetched GmailHistoryDelta)
  delta_of_listing cut_off = none
  delta_of_listing (failed problem) = some (threw problem)
  delta_of_listing (listed pages) =
      let compaction = compact_gmail_history_records pages.history_records in
      some (delta_of compaction pages.next_cursor (get_messages compaction.changed_message_ids))

  unfoldable pub list_gmail_history_delta :
      (Option String → HttpAnswer) → String → ℕ → Option (Fetched GmailHistoryDelta)
  unfolding list_gmail_history_pages compact_gmail_history_records get_messages
  list_gmail_history_delta get_json cursor fuel =
      delta_of_listing (list_gmail_history_pages get_json cursor fuel)
