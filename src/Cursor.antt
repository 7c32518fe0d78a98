-- ===== src/Cursor.antt =====
-- parseDecimalHistoryCursor, parseTrailingOrdinalCursor and isMailboxCursorRegression of
-- packages/db/src/persistence/canonical-state-mappers.ts, and parseGmailHistoryId and
-- isWatchHistoryAheadOfMailboxCursor of packages/core/src/mailbox-watch-renewal.ts.
-- A BigInt is a natural number; a text is matched by its code points.
pub mod Order
use Prim.Native.Char.{code}
use Prim.Native.String
use mailmon.Base.{
  ℕ, ◌+◌, ◌*◌, ◌-◌, String, Bool, true, false, not, ◌&&◌, ◌||◌, Option, none, some, List, [], ◌∷◌,
  leb, ltb, eqb, ◌==◌, if◌then◌else◌,
}

abbrev pub codes : String → List ℕ
codes String.[] = []
codes (String.◌∷◌ c s) = code c ∷ codes s

-- \d
abbrev is_digit : ℕ → Bool
is_digit c = leb b'0' c && leb c b'9'

all_digits : List ℕ → Bool
all_digits [] = true
all_digits (c ∷ cs) = is_digit c && all_digits cs

-- BigInt(…) of a text of digits.
digits_value : ℕ → List ℕ → ℕ
digits_value acc [] = acc
digits_value acc (c ∷ cs) = digits_value (acc * 10 + (c - b'0')) cs

abbrev is_empty : List ℕ → Bool
is_empty [] = true
is_empty (c ∷ cs) = false

-- /^\d+$/
decimal_codes : List ℕ → Option ℕ
decimal_codes cs = if not (is_empty cs) && all_digits cs then some (digits_value 0 cs) else none

unfoldable pub parse_decimal_history_cursor : String → Option ℕ
unfolding decimal_codes all_digits digits_value
parse_decimal_history_cursor cursor = decimal_codes (codes cursor)

-- The longest suffix of digits, and what stands before it.
abbrev prepend : ℕ → List ℕ → List ℕ → List ℕ × List ℕ
prepend c [] digits = if is_digit c then ([], c ∷ digits) else (c ∷ [], digits)
prepend c (p ∷ ps) digits = (c ∷ p ∷ ps, digits)

split_digits : List ℕ → List ℕ × List ℕ
split_digits [] = ([], [])
split_digits (c ∷ cs) = let (prefix, digits) = split_digits cs in prepend c prefix digits

-- The characters that `.` does not match.
abbrev is_line_terminator : ℕ → Bool
is_line_terminator c = eqb c 10 || (eqb c 13 || (eqb c 0x2028 || eqb c 0x2029))

-- `.*\D` matches the prefix: only its last character may end a line.
line_until_last : List ℕ → Bool
line_until_last [] = false
line_until_last (c ∷ []) = true
line_until_last (c ∷ d ∷ cs) = not (is_line_terminator c) && line_until_last (d ∷ cs)

abbrev ordinal_parts : List ℕ × List ℕ → Option (List ℕ × ℕ)
ordinal_parts (prefix, digits) =
    if not (is_empty digits) && line_until_last prefix
    then some (prefix, digits_value 0 digits)
    else none

-- /^(.*\D)(\d+)$/
unfoldable pub parse_trailing_ordinal_cursor : String → Option (List ℕ × ℕ)
unfolding split_digits line_until_last digits_value
parse_trailing_ordinal_cursor cursor = ordinal_parts (split_digits (codes cursor))

same_codes : List ℕ → List ℕ → Bool
same_codes [] [] = true
same_codes [] (d ∷ ds) = false
same_codes (c ∷ cs) [] = false
same_codes (c ∷ cs) (d ∷ ds) = eqb c d && same_codes cs ds

abbrev ordinal_regression : Option (List ℕ × ℕ) → Option (List ℕ × ℕ) → Bool
ordinal_regression (some (prefix, value)) (some (next_prefix, next_value)) =
    same_codes prefix next_prefix && ltb next_value value
ordinal_regression _ _ = false

-- The comparison of two different cursors, after the attempts to read them as decimals.
abbrev parsed_regression : Option ℕ → Option ℕ → Option (List ℕ × ℕ) → Option (List ℕ × ℕ) → Bool
parsed_regression (some current) (some next) current_ordinal next_ordinal = ltb next current
parsed_regression (some current) none current_ordinal next_ordinal = true
parsed_regression none next current_ordinal next_ordinal =
    ordinal_regression current_ordinal next_ordinal

unfoldable pub is_mailbox_cursor_regression : Option String → Option String → Bool
unfolding same_codes
is_mailbox_cursor_regression none next = false
is_mailbox_cursor_regression (some current) none = true
is_mailbox_cursor_regression (some current) (some next) =
    if current == next
    then false
    else parsed_regression (parse_decimal_history_cursor current)
        (parse_decimal_history_cursor next) (parse_trailing_ordinal_cursor current)
        (parse_trailing_ordinal_cursor next)

-- parseGmailHistoryId has the text of parseDecimalHistoryCursor.
abbrev parse_gmail_history_id : String → Option ℕ
parse_gmail_history_id history_id = parse_decimal_history_cursor history_id

abbrev parsed_ahead : Option ℕ → Option ℕ → Bool → Bool
parsed_ahead (some cursor) (some history) different = ltb cursor history
parsed_ahead _ _ different = different

unfoldable pub is_watch_history_ahead_of_mailbox_cursor : Option String → String → Bool
is_watch_history_ahead_of_mailbox_cursor none watch_history_id = true
is_watch_history_ahead_of_mailbox_cursor (some cursor) watch_history_id =
    parsed_ahead (parse_gmail_history_id cursor) (parse_gmail_history_id watch_history_id)
      (not (watch_history_id == cursor))
