-- ===== src/Maintenance/Columns.antt =====
-- ORDER BY … ASC on the columns of a mailbox: nulls come last.
use mailmon.Base.{ℕ, Bool, true, false, ◌&&◌, ◌||◌, Option, none, some, ltb, eqb}

abbrev pub before : Option ℕ → Option ℕ → Bool
before (some a) (some b) = ltb a b
before (some a) none = true
before none b = false

abbrev pub level : Option ℕ → Option ℕ → Bool
level (some a) (some b) = eqb a b
level none none = true
level _ _ = false

-- Compare by a column, and where it is level by what follows.
abbrev pub ordered_by : Option ℕ → Option ℕ → Bool → Bool
ordered_by a b next = before a b || level a b && next
