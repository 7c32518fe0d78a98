-- ===== src/Base/Texts.antt =====
-- Sets of texts in the order of insertion (JavaScript's `Set`), as lists.
use Prim.Native.String.{String}
use mathlib.Core.Path.{◌≡◌, refl, ap}
use mathlib.Core.Bool.{Bool, true, false, not, ◌&&◌, ◌||◌}
use mathlib.Core.List.{List, [], ◌∷◌, ◌++◌}
use native.Mathlib.Omega.{arith}
use mathlib.Core.Logic.{inl, inr}
use mailmon.Base.Tests.{Bool-cases, ◌==◌, if◌then◌else◌}

-- set.has(x), array.includes(x)
unfoldable pub includes : String → List String → Bool
includes x [] = false
includes x (y ∷ ys) = y == x || includes x ys

-- set.add(x)
unfoldable pub add : String → List String → List String
add x xs = if includes x xs then xs else xs ++ x ∷ []

-- set.delete(x)
unfoldable pub remove : String → List String → List String
remove x [] = []
remove x (y ∷ ys) = let rest = remove x ys in if y == x then rest else y ∷ rest

distinct_from : List String → List String → List String
distinct_from seen [] = []
distinct_from seen (x ∷ xs) =
    let old = distinct_from seen xs in
    let new = x ∷ distinct_from (x ∷ seen) xs in if includes x seen then old else new

-- [...new Set(xs)]
unfoldable pub distinct : List String → List String
unfolding distinct_from
distinct xs = distinct_from [] xs

pub includes-append :
    (x : String) (xs ys : List String) → includes x (xs ++ ys) ≡ (includes x xs || includes x ys)
unfolding includes
includes-append x [] ys = refl
includes-append x (y ∷ xs) ys = ground (arith, includes-append x xs ys)

pub includes-add :
    (x y : String) (xs : List String) → includes x (add y xs) ≡ (includes x xs || y == x)
unfolding add
includes-add x y xs = ground (arith, includes-append x xs (y ∷ []), one)
  where
    one : includes x (y ∷ []) ≡ (y == x || false)
    one = unfold includes in refl

pub includes-remove :
    (x y : String) (xs : List String) → includes x (remove y xs) ≡ (includes x xs && not (y == x))
unfolding includes remove
includes-remove x y [] = refl
includes-remove x y (z ∷ xs) = ground (arith, includes-remove x y xs)

includes-distinct_from :
    (x : String) (seen xs : List String)
    → includes x (distinct_from seen xs) ≡ (includes x xs && not (includes x seen))
unfolding includes distinct_from
includes-distinct_from x seen [] = refl
includes-distinct_from x seen (y ∷ xs) =
    ground (arith, includes-distinct_from x seen xs, includes-distinct_from x (y ∷ seen) xs)

-- Making a list distinct keeps its elements.
pub includes-distinct : (x : String) (xs : List String) → includes x (distinct xs) ≡ includes x xs
unfolding distinct includes
includes-distinct x xs = ground (arith, includes-distinct_from x [] xs)

-- No text stands twice.
abbrev pub Distinct : List String → Type 0
Distinct [] = Unit
Distinct (x ∷ xs) = (includes x xs ≡ false) × Distinct xs

Distinct-append_one :
    (x : String) (xs : List String) → Distinct xs → includes x xs ≡ false → Distinct (xs ++ x ∷ [])
unfolding includes
Distinct-append_one x [] d h = (refl, tt)
Distinct-append_one x (y ∷ xs) (fresh, d) h =
    (ground (arith, includes-append y xs (x ∷ [])), Distinct-append_one x xs d (ground arith))

pub add-Distinct : (x : String) (xs : List String) → Distinct xs → Distinct (add x xs)
unfolding add
add-Distinct x xs d = ground (arith, Distinct-append_one x xs d)

pub remove-Distinct : (x : String) (xs : List String) → Distinct xs → Distinct (remove x xs)
unfolding remove
remove-Distinct x [] d = tt
remove-Distinct x (y ∷ xs) (fresh, d) =
    ground (arith, remove-Distinct x xs d, includes-remove y x xs, fresh)

distinct_from-Distinct : (seen xs : List String) → Distinct (distinct_from seen xs)
unfolding distinct_from includes
distinct_from-Distinct seen [] = tt
distinct_from-Distinct seen (x ∷ xs) = elim (Bool-cases (includes x seen)) [
  | inl old ↦ rw old (distinct_from-Distinct seen xs)
  | inr new ↦
      rw new (
        ground (arith, includes-distinct_from x (x ∷ seen) xs),
        distinct_from-Distinct (x ∷ seen) xs,
      )
]

pub distinct-Distinct : (xs : List String) → Distinct (distinct xs)
unfolding distinct
distinct-Distinct xs = distinct_from-Distinct [] xs

distinct_from-Distinct_id :
    (seen xs : List String)
    → Distinct xs
    → ((x : String) → includes x xs ≡ true → includes x seen ≡ false)
    → distinct_from seen xs ≡ xs
unfolding distinct_from includes
distinct_from-Distinct_id seen [] d new = refl
distinct_from-Distinct_id seen (x ∷ xs) (fresh, d) new = rw (new x (ground arith)) (
    ap (λ rest. x ∷ rest)
      (distinct_from-Distinct_id (x ∷ seen) xs d
        (λ y listed. ground (arith, listed, fresh, new y))))

-- A list without repetitions is already distinct.
pub distinct-idempotent : (xs : List String) → Distinct xs → distinct xs ≡ xs
unfolding distinct includes
distinct-idempotent xs d = distinct_from-Distinct_id [] xs d (λ x listed. refl)
