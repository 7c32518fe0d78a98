-- ===== src/Gmail/Parsers.antt =====
-- packages/gmail/src/parsers.ts: the bodies of Gmail's answers, and the problems that
-- packages/gmail/src/problems.ts makes of them.
use Prim.Native.String.{◌++◌ as append}
use mailmon.Base.{
  ℕ, String, Bool, true, false, not, ◌||◌, Option, none, some, List, [], ◌∷◌, eqb, if◌then◌else◌,
}
use mailmon.Base.Texts.{includes}
use mailmon.Contracts.{ProblemDetails}
use mailmon.Gmail.History.{GmailHistoryRecord}
use mailmon.Gmail.Projection.{GmailMessageResponse, GmailHeader, GmailPayload}
use mailmon.Json.{Json, text, is_record, get_text, get_record, get_items}

-- What a function that may throw a problem gives.
pub data Fetched (A : Type 0) : Type 0 where
  threw : ProblemDetails → Fetched A
  fetched : A → Fetched A

pub record GmailProfileResponse : Type 0 where
  pub email_address : String
  pub history_id : String

-- GmailListMessagesResponse: the ids of the messages.
pub record GmailListMessagesResponse : Type 0 where
  pub messages : Option (List String)
  pub next_page_token : Option String

pub record GmailHistoryListResponse : Type 0 where
  pub history : Option (List GmailHistoryRecord)
  pub history_id : String
  pub next_page_token : Option String

abbrev pub make_gmail_problem : String → String → Bool → ℕ → ProblemDetails
make_gmail_problem code detail retryable status = record {
  code = code;
  status = status;
  detail = detail;
  retryable = retryable;
}

abbrev profile_of : Option String → Option String → Fetched GmailProfileResponse
profile_of (some email_address) (some history_id) =
    fetched record { email_address = email_address; history_id = history_id }
profile_of _ _ = threw (
    make_gmail_problem "gmail_profile_response_invalid"
      "Fetching the Gmail mailbox profile returned an invalid response body." false 502)

unfoldable pub parse_gmail_profile_response : Json → Fetched GmailProfileResponse
unfolding get_text
parse_gmail_profile_response payload =
    profile_of (get_text "emailAddress" payload) (get_text "historyId" payload)

abbrev header_of : Option String → Option String → Option GmailHeader
header_of (some name) (some value) = some record { name = name; value = value }
header_of _ _ = none

-- isGmailHeader
unfoldable pub gmail_header : Json → Option GmailHeader
unfolding get_text
gmail_header value = header_of (get_text "name" value) (get_text "value" value)

-- items.flatMap((item) => { const parsed = parse(item); return parsed === null ? [] : [parsed]; })
module _ {A : Type 0} where
  abbrev cons_some : Option A → List A → List A
  cons_some none rest = rest
  cons_some (some x) rest = x ∷ rest

  unfoldable pub parse_each : (Json → Option A) → List Json → List A
  parse_each parse [] = []
  parse_each parse (value ∷ values) = cons_some (parse value) (parse_each parse values)

  unfoldable pub parse_items : (Json → Option A) → Option (List Json) → Option (List A)
  unfolding parse_each
  parse_items parse none = none
  parse_items parse (some values) = some (parse_each parse values)

abbrev text_of : Json → Option String
text_of (text s) = some s
text_of _ = none

abbrev cons_both : Option String → Option (List String) → Option (List String)
cons_both (some s) (some rest) = some (s ∷ rest)
cons_both _ _ = none

-- isStringArray: every item is a string.
unfoldable pub string_array : List Json → Option (List String)
string_array [] = some []
string_array (value ∷ values) = cons_both (text_of value) (string_array values)

abbrev label_ids_of : Option (List Json) → Option (List String)
label_ids_of none = none
label_ids_of (some values) = string_array values

abbrev message_payload_of : Option Json → Option GmailPayload
message_payload_of none = none
message_payload_of (some inner) =
    some record { headers = parse_items gmail_header (get_items "headers" inner) }

abbrev message_response_of :
    String → Json → Option String → Option String → Fetched GmailMessageResponse
message_response_of message_id payload (some id) (some thread_id) = fetched record {
  id = id;
  thread_id = thread_id;
  snippet = get_text "snippet" payload;
  internal_date = get_text "internalDate" payload;
  label_ids = label_ids_of (get_items "labelIds" payload);
  payload = message_payload_of (get_record "payload" payload);
}
message_response_of message_id payload _ _ = threw (
    make_gmail_problem "gmail_message_response_invalid"
      (append "Fetching Gmail message " (append message_id " returned an invalid response body."))
      false 502)

unfoldable pub parse_gmail_message_response : String → Json → Fetched GmailMessageResponse
unfolding get_text get_items get_record gmail_header parse_items string_array
parse_gmail_message_response message_id payload =
    message_response_of message_id payload (get_text "id" payload) (get_text "threadId" payload)

unfoldable pub parse_gmail_list_messages_response : Json → Fetched GmailListMessagesResponse
unfolding is_record get_text get_items parse_items
parse_gmail_list_messages_response payload =
    if is_record payload
    then fetched record {
      messages = parse_items (get_text "id") (get_items "messages" payload);
      next_page_token = get_text "nextPageToken" payload;
    }
    else threw (
        make_gmail_problem "gmail_message_list_response_invalid"
          "Listing Gmail messages returned an invalid response body." false 502)

abbrev id_of : Option Json → Option String
id_of none = none
id_of (some message) = get_text "id" message

-- The id of the message that a change names.
unfoldable pub parse_gmail_history_change : Json → Option String
unfolding get_record get_text
parse_gmail_history_change value = id_of (get_record "message" value)

abbrev or_empty : Option (List String) → List String
or_empty none = []
or_empty (some ids) = ids

abbrev parse_changes : Option (List Json) → List String
parse_changes changes = or_empty (parse_items parse_gmail_history_change changes)

-- A list of changes that is absent is taken for an empty one, as the compaction takes it.
unfoldable pub parse_gmail_history_record : Json → Option GmailHistoryRecord
unfolding is_record get_items parse_items parse_gmail_history_change
parse_gmail_history_record value =
    if is_record value
    then some record {
      labels_added = parse_changes (get_items "labelsAdded" value);
      labels_removed = parse_changes (get_items "labelsRemoved" value);
      messages_added = parse_changes (get_items "messagesAdded" value);
      messages_deleted = parse_changes (get_items "messagesDeleted" value);
    }
    else none

abbrev history_of : Json → Option String → Fetched GmailHistoryListResponse
history_of payload (some history_id) = fetched record {
  history = parse_items parse_gmail_history_record (get_items "history" payload);
  history_id = history_id;
  next_page_token = get_text "nextPageToken" payload;
}
history_of payload none = threw (
    make_gmail_problem "gmail_history_response_invalid"
      "Fetching Gmail history returned an invalid response body." false 502)

unfoldable pub parse_gmail_history_list_response : Json → Fetched GmailHistoryListResponse
unfolding get_text get_items parse_items parse_gmail_history_record
parse_gmail_history_list_response payload = history_of payload (get_text "historyId" payload)

-- parseGmailErrorReasons
unfoldable pub parse_gmail_error_reasons : Json → List String
unfolding get_record get_items get_text parse_items
parse_gmail_error_reasons payload = elim (get_record "error" payload) [
  | none ↦ []
  | some error ↦ or_empty (parse_items (get_text "reason") (get_items "errors" error))
]

-- GMAIL_RATE_LIMIT_REASONS
abbrev gmail_rate_limit_reasons : List String
gmail_rate_limit_reasons =
    "dailyLimitExceeded" ∷ "quotaExceeded" ∷ "rateLimitExceeded" ∷ "userRateLimitExceeded" ∷ []

-- reasons.some((reason) => limits.has(reason))
unfoldable pub any_rate_limit : List String → Bool
unfolding includes
any_rate_limit [] = false
any_rate_limit (reason ∷ reasons) =
    includes reason gmail_rate_limit_reasons || any_rate_limit reasons

unfoldable pub is_gmail_rate_limited_response : ℕ → Json → Bool
unfolding parse_gmail_error_reasons any_rate_limit
is_gmail_rate_limited_response status payload =
    if eqb status 429
    then true
    else if not (eqb status 403)
    then false
    else any_rate_limit (parse_gmail_error_reasons payload)

abbrev pub make_gmail_rate_limited_problem : String → ℕ → ProblemDetails
make_gmail_rate_limited_problem operation status =
    make_gmail_problem "gmail_rate_limited"
      (append "Gmail temporarily rate-limited " (append operation " for this mailbox.")) true status
