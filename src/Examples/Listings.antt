-- ===== src/Examples/Listings.antt =====
-- A history of two pages.
use mailmon.Base.{String, String_discrete, ◌≡◌, refl, Option, none, some, [], ◌∷◌, arith}
use mailmon.Gmail.History.{GmailHistoryRecord}
use mailmon.Gmail.Pages.{HttpAnswer, listed, read_page, list_gmail_history_pages}
use mailmon.Gmail.Pages.Complete.{Answers, last_page, then_page, list_pages-reads_all}
use mailmon.Gmail.Parsers.{GmailHistoryListResponse}
use mailmon.Json.{Json, text, array, object, field, no_fields, item, no_items}

abbrev added : String → Json
added id = object (
    field "messagesAdded"
      (array (
        item (object (field "message" (object (field "id" (text id) no_fields)) no_fields))
          no_items))
      no_fields)

abbrev first_body : Json
first_body = object (
    field "historyId" (text "5") (
      field "nextPageToken" (text "n")
        (field "history" (array (item (added "a") no_items)) no_fields)))

abbrev last_body : Json
last_body =
    object
      (field "historyId" (text "7") (field "history" (array (item (added "b") no_items)) no_fields))

abbrev get_json : Option String → HttpAnswer
get_json none = record { status = 200; body = first_body }
get_json (some token) = record { status = 200; body = last_body }

abbrev record_of : String → GmailHistoryRecord
record_of id = record {
  labels_added = [];
  labels_removed = [];
  messages_added = id ∷ [];
  messages_deleted = [];
}

abbrev first_response : GmailHistoryListResponse
first_response = record {
  history = some (record_of "a" ∷ []);
  history_id = "5";
  next_page_token = some "n";
}

abbrev last_response : GmailHistoryListResponse
last_response = record {
  history = some (record_of "b" ∷ []);
  history_id = "7";
  next_page_token = none;
}

two_pages : Answers get_json "1" none (record_of "a" ∷ record_of "b" ∷ []) "7" 2
unfolding read_page String_discrete
two_pages = then_page first_response "n" refl refl (last_page last_response refl refl)

list_pages-reads_all_example :
    list_gmail_history_pages get_json "1" 3
    ≡ listed record { history_records = record_of "a" ∷ record_of "b" ∷ []; next_cursor = "7" }
list_pages-reads_all_example =
    list_pages-reads_all get_json "1" 3 2 (record_of "a" ∷ record_of "b" ∷ []) "7" two_pages
      (omega arith)
