-- ===== src/Cursor/Order.antt =====
-- How the regression test orders the cursors of a mailbox.
use mailmon.Base.{
  ℕ, ◌≤◌, String, ◌≡◌, refl, true, false, Option, none, some, List, [], ◌∷◌, arith, inl, inr,
  Option-cases, String_discrete,
}
use mailmon.Cursor.{
  ordinal_regression, parsed_regression, codes, all_digits, decimal_codes, split_digits, same_codes,
  line_until_last, parse_decimal_history_cursor, parse_trailing_ordinal_cursor,
  is_mailbox_cursor_regression, is_watch_history_ahead_of_mailbox_cursor,
}

-- A mailbox whose cursor is a decimal can only move to a decimal that is not smaller: any other
-- next cursor, null included, is a regression.
pub decimal-not_regression :
    (current : String) (n : ℕ) (next : Option String)
    → parse_decimal_history_cursor current ≡ some n
    → is_mailbox_cursor_regression (some current) next ≡ false
    → (t : String) × (m : ℕ) × (next ≡ some t) × (parse_decimal_history_cursor t ≡ some m) × (n ≤ m)
unfolding is_mailbox_cursor_regression
decimal-not_regression current n none e fine = cc
decimal-not_regression current n (some t) e fine = elim (String_discrete current t) [
  | yes same ↦ (t, n, refl, rw same at e, omega arith)
  | no other ↦ elim (Option-cases (parse_decimal_history_cursor t)) [
    | inl opaque_ ↦ absurd (ground (arith, e, opaque_, other))
    | inr (m, parsed) ↦ (t, m, refl, parsed, ground (arith, e, parsed, other))
  ]
]

-- A text of digits has no other prefix than the empty one.
split_digits-all : (cs : List ℕ) → all_digits cs ≡ true → (split_digits cs).0 ≡ []
unfolding all_digits split_digits
split_digits-all [] h = refl
split_digits-all (c ∷ cs) h = ground (arith, split_digits-all cs)

decimal-no_ordinal :
    (cursor : String) (n : ℕ)
    → parse_decimal_history_cursor cursor ≡ some n
    → parse_trailing_ordinal_cursor cursor ≡ none
unfolding parse_decimal_history_cursor decimal_codes parse_trailing_ordinal_cursor line_until_last
decimal-no_ordinal cursor n e = ground (arith, split_digits-all (codes cursor))

same_codes_comm : (cs ds : List ℕ) → same_codes cs ds ≡ same_codes ds cs
unfolding same_codes
same_codes_comm [] [] = refl
same_codes_comm [] (d ∷ ds) = refl
same_codes_comm (c ∷ cs) [] = refl
same_codes_comm (c ∷ cs) (d ∷ ds) = ground (arith, same_codes_comm cs ds)

ordinal_regression-asymmetric :
    (a b : Option (List ℕ × ℕ)) → ordinal_regression a b ≡ true → ordinal_regression b a ≡ false
ordinal_regression-asymmetric none b h = cc
ordinal_regression-asymmetric (some (p, n)) none h = cc
ordinal_regression-asymmetric (some (p, n)) (some (q, m)) h = ground (arith, same_codes_comm p q)

no_ordinal : (y x : Option (List ℕ × ℕ)) → x ≡ none → ordinal_regression y x ≡ false
no_ordinal none x e = refl
no_ordinal (some (q, m)) none e = refl
no_ordinal (some (q, m)) (some p) e = cc

-- A decimal has no ordinal to be compared with.
parsed_regression-asymmetric :
    (a b : Option ℕ) (x y : Option (List ℕ × ℕ))
    → ((n : ℕ) → a ≡ some n → x ≡ none)
    → ((m : ℕ) → b ≡ some m → y ≡ none)
    → parsed_regression a b x y ≡ true
    → parsed_regression b a y x ≡ false
parsed_regression-asymmetric (some n) (some m) x y decimal decimal' h = ground arith
parsed_regression-asymmetric (some n) none x y decimal decimal' h = no_ordinal y x (decimal n refl)
parsed_regression-asymmetric none (some m) x y decimal decimal' h =
    ground (arith, no_ordinal x y (decimal' m refl))
parsed_regression-asymmetric none none x y decimal decimal' h = ordinal_regression-asymmetric x y h

-- No two cursors are each a regression of the other.
pub regression_asymmetric :
    (a b : String)
    → is_mailbox_cursor_regression (some a) (some b) ≡ true
    → is_mailbox_cursor_regression (some b) (some a) ≡ false
unfolding is_mailbox_cursor_regression
regression_asymmetric a b h = elim (String_discrete a b) [
  | yes same ↦ ground (arith, same)
  | no other ↦ ground (
    arith,
    parsed_regression-asymmetric (parse_decimal_history_cursor a) (parse_decimal_history_cursor b)
        (parse_trailing_ordinal_cursor a) (parse_trailing_ordinal_cursor b) (decimal-no_ordinal a)
        (decimal-no_ordinal b),
  )
]

-- Between decimals, the watch is ahead of the mailbox's cursor exactly when going back from the
-- watch's history to that cursor is a regression.
pub ahead-eq-regression :
    (cursor history : String) (n m : ℕ)
    → parse_decimal_history_cursor cursor ≡ some n
    → parse_decimal_history_cursor history ≡ some m
    → is_watch_history_ahead_of_mailbox_cursor (some cursor) history
      ≡ is_mailbox_cursor_regression (some history) (some cursor)
unfolding is_watch_history_ahead_of_mailbox_cursor is_mailbox_cursor_regression
ahead-eq-regression cursor history n m e f = ground (arith, e, f)
