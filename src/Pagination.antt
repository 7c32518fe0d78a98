-- ===== src/Pagination.antt =====
-- packages/db/src/persistence/pagination-cursors.ts: the cursors of pages of messages, threads and
-- sync runs. JSON, base64url and the dates of JavaScript belong to the platform and are parameters.
pub mod RoundTrip
use Prim.Native.String.{◌++◌ as append}
use mailmon.Base.{String, Bool, true, false, not, Option, none, some, ◌==◌, if◌then◌else◌}
use mailmon.Base.Prefix.{starts_with, drop_prefix}
use mailmon.Json.{Json, text, object, field, no_fields, get_text}

-- What the program uses of the platform.
pub record Platform : Type 0 where
  pub stringify : Json → String
  -- `none` where JSON.parse throws
  pub parse : String → Option Json
  pub to_base64url : String → String
  pub from_base64url : String → String
  -- new Date(Date.parse(timestamp)).toISOString(), or `none` where Date.parse gives NaN
  pub iso_string_of : String → Option String

pub record PaginationCursor : Type 0 where
  pub id : String
  pub timestamp : String

pub record SyncRunPaginationCursor : Type 0 where
  pub id : String
  pub started_at : String

-- invalidPaginationCursor(resourceType), or the value.
pub data DecodedCursor (A : Type 0) : Type 0 where
  invalid_pagination_cursor : (resource_type : String) → DecodedCursor A
  decoded_cursor : A → DecodedCursor A

module _ (platform : Platform) where
  abbrev same_timestamp : String → Option String → Bool
  same_timestamp timestamp none = false
  same_timestamp timestamp (some printed) = printed == timestamp

  abbrev pub is_canonical_iso_timestamp : String → Bool
  is_canonical_iso_timestamp timestamp = same_timestamp timestamp (platform.iso_string_of timestamp)

  abbrev pub encode_payload : Json → String
  encode_payload payload = append "cur_" (platform.to_base64url (platform.stringify payload))

  -- The cursor as a value, if it starts with "cur_" and JSON.parse accepts the rest.
  abbrev pub payload_of : String → Option Json
  payload_of cursor =
      if starts_with "cur_" cursor
      then platform.parse (platform.from_base64url (drop_prefix "cur_" cursor))
      else none

  unfoldable pub encode_pagination_cursor : PaginationCursor → String
  encode_pagination_cursor cursor =
      encode_payload
        (object (field "id" (text cursor.id) (field "timestamp" (text cursor.timestamp) no_fields)))

  abbrev pagination_cursor_of :
      String → Option String → Option String → DecodedCursor PaginationCursor
  pagination_cursor_of resource_type (some id) (some timestamp) =
      if id == ""
      then invalid_pagination_cursor resource_type
      else if not (is_canonical_iso_timestamp timestamp)
      then invalid_pagination_cursor resource_type
      else decoded_cursor record { id = id; timestamp = timestamp }
  pagination_cursor_of resource_type _ _ = invalid_pagination_cursor resource_type

  abbrev pub pagination_cursor_in : String → Option Json → DecodedCursor PaginationCursor
  pagination_cursor_in resource_type none = invalid_pagination_cursor resource_type
  pagination_cursor_in resource_type (some payload) =
      pagination_cursor_of resource_type (get_text "id" payload) (get_text "timestamp" payload)

  unfoldable pub decode_pagination_cursor : String → String → DecodedCursor PaginationCursor
  unfolding starts_with drop_prefix get_text
  decode_pagination_cursor resource_type cursor =
      pagination_cursor_in resource_type (payload_of cursor)

  unfoldable pub encode_sync_run_pagination_cursor : SyncRunPaginationCursor → String
  encode_sync_run_pagination_cursor cursor =
      encode_payload (
        object (field "id" (text cursor.id) (field "startedAt" (text cursor.started_at) no_fields)))

  abbrev sync_run_cursor_of : Option String → Option String → DecodedCursor SyncRunPaginationCursor
  sync_run_cursor_of (some id) (some started_at) =
      if id == ""
      then invalid_pagination_cursor "sync_runs"
      else if not (is_canonical_iso_timestamp started_at)
      then invalid_pagination_cursor "sync_runs"
      else decoded_cursor record { id = id; started_at = started_at }
  sync_run_cursor_of _ _ = invalid_pagination_cursor "sync_runs"

  abbrev pub sync_run_cursor_in : Option Json → DecodedCursor SyncRunPaginationCursor
  sync_run_cursor_in none = invalid_pagination_cursor "sync_runs"
  sync_run_cursor_in (some payload) =
      sync_run_cursor_of (get_text "id" payload) (get_text "startedAt" payload)

  unfoldable pub decode_sync_run_pagination_cursor : String → DecodedCursor SyncRunPaginationCursor
  unfolding starts_with drop_prefix get_text
  decode_sync_run_pagination_cursor cursor = sync_run_cursor_in (payload_of cursor)
