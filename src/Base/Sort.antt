-- ===== src/Base/Sort.antt =====
-- JavaScript's order of texts, by UTF-16 code units, and a stable sort.
use Prim.Native.Char.{code}
use Prim.Native.Nat.{ℕ, ◌+◌, ◌-◌, ◌/◌, ◌%◌}
use Prim.Native.String.{String}
use mathlib.Core.Bool.{Bool, true, false, ◌&&◌, ◌||◌}
use mathlib.Core.List.{List, [], ◌∷◌}
use mailmon.Base.Tests.{ltb, eqb, if◌then◌else◌}

-- A code point beyond the first plane is two code units.
unfoldable pub units : String → List ℕ
units String.[] = []
units (String.◌∷◌ c s) =
    let rest = units s in
    if ltb (code c) 65536
    then code c ∷ rest
    else (55296 + (code c - 65536) / 1024) ∷ (56320 + (code c - 65536) % 1024) ∷ rest

unfoldable pub units_leq : List ℕ → List ℕ → Bool
units_leq [] ys = true
units_leq (x ∷ xs) [] = false
units_leq (x ∷ xs) (y ∷ ys) = ltb x y || eqb x y && units_leq xs ys

-- s <= t
unfoldable pub text_leq : String → String → Bool
unfolding units units_leq
text_leq s t = units_leq (units s) (units t)

-- Rows in an order, rows that it does not tell apart in the order they came in.
module _ {ℓ} {A : Type ℓ} (leq : A → A → Bool) where
  unfoldable pub insert : A → List A → List A
  insert x [] = x ∷ []
  insert x (y ∷ ys) = let later = y ∷ insert x ys in if leq x y then x ∷ y ∷ ys else later

  unfoldable pub sort_by : List A → List A
  unfolding insert
  sort_by [] = []
  sort_by (x ∷ xs) = insert x (sort_by xs)
