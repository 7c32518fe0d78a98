-- ===== src/Base/Queries.antt =====
-- SELECT … WHERE … ORDER BY … [LIMIT 1].
use mathlib.Core.Path.{◌≡◌, refl, ◌∙◌}
use mathlib.Core.Logic.{◌⊎◌, inl, inr}
use Prim.Native.String.{String}
use mathlib.Core.Bool.{Bool, true, false, ◌||◌}
use mathlib.Core.Option.{Option, none, some}
use mathlib.Core.List.{List, [], ◌∷◌, map}
use native.Mathlib.Omega.{arith}
use mailmon.Base.Tests.{if◌then◌else◌, Bool-cases, String_discrete, ◌==◌}
use Prim.Native.Nat.{ℕ, zero, suc}
use mailmon.Base.Lists.{All, take, length}
use mailmon.Base.Sort.{insert, sort_by}
use mailmon.Base.Table.{find?, select_where, KeyUnique}
use mailmon.Base.Texts.{includes, Distinct}

abbrev pub first {ℓ} : {A : Type ℓ} → List A → Option A
first [] = none
first (x ∷ xs) = some x

module _ {ℓ} {A : Type ℓ} (leq : A → A → Bool) where
  unfoldable pub select_sorted : (A → Bool) → List A → List A
  unfolding sort_by select_where
  select_sorted p rows = sort_by leq (select_where p rows)

  first-insert :
      (x : A) (ys : List A)
      → first (insert leq x ys)
        ≡ some (elim (first ys) [ none ↦ x | some y ↦ if leq x y then x else y ])
  unfolding insert
  first-insert x [] = refl
  first-insert x (y ∷ ys) = ground arith

  first-sort_cons :
      (x : A) (xs : List A)
      → first (sort_by leq (x ∷ xs))
        ≡ some (elim (first (sort_by leq xs)) [ none ↦ x | some y ↦ if leq x y then x else y ])
  unfolding sort_by
  first-sort_cons x xs = first-insert x (sort_by leq xs)

  -- The first row of a query is found if any row passes, and passes.
  pub first-select_sorted :
      (p : A → Bool) (rows : List A)
      → ((first (select_sorted p rows) ≡ none) × (find? p rows ≡ none))
        ⊎ ((m : A) × (first (select_sorted p rows) ≡ some m) × (p m ≡ true))
  unfolding select_sorted select_where find? sort_by
  first-select_sorted p [] = inl (refl, refl)
  first-select_sorted p (x ∷ rows) = elim (Bool-cases (p x)) [
    | inl hit ↦ elim (first-select_sorted p rows) [
      | inl (empty, absent) ↦
          inr (x, rw hit (first-insert x (sort_by leq (select_where p rows)) ∙ rw empty refl), hit)
      | inr (m, least, passes) ↦ elim (Bool-cases (leq x m)) [
        | inl lower ↦ inr (
          x,
          rw hit (first-insert x (sort_by leq (select_where p rows)) ∙ rw least (rw lower refl)),
          hit,
        )
        | inr higher ↦ inr (
          m,
          rw hit (first-insert x (sort_by leq (select_where p rows)) ∙ rw least (rw higher refl)),
          passes,
        )
      ]
    ]
    | inr miss ↦ rw miss (first-select_sorted p rows)
  ]

abbrev pub passes {ℓ} : {A : Type ℓ} → (A → Bool) → Option A → Bool
passes p none = false
passes p (some x) = p x

-- Which keys the rows of a query have.
module _ {ℓ} {A : Type ℓ} (key : A → String) (k : String) where
  includes-map-insert :
      (leq : A → A → Bool) (x : A) (ys : List A)
      → includes k (map key (insert leq x ys)) ≡ (key x == k || includes k (map key ys))
  unfolding insert includes
  includes-map-insert leq x [] = refl
  includes-map-insert leq x (y ∷ ys) = ground (arith, includes-map-insert leq x ys)

  includes-map_sort :
      (leq : A → A → Bool) (xs : List A)
      → includes k (map key (sort_by leq xs)) ≡ includes k (map key xs)
  unfolding sort_by includes
  includes-map_sort leq [] = refl
  includes-map_sort leq (x ∷ xs) =
      includes-map-insert leq x (sort_by leq xs) ∙ ground (arith, includes-map_sort leq xs)

  absent-select_where :
      (p : A → Bool) (xs : List A)
      → find? (λ x. key x == k) xs ≡ none
      → includes k (map key (select_where p xs)) ≡ false
  unfolding find? select_where includes
  absent-select_where p [] e = refl
  absent-select_where p (x ∷ xs) e = ground (arith, absent-select_where p xs)

  includes-select_where :
      (p : A → Bool) (xs : List A)
      → KeyUnique key xs
      → includes k (map key (select_where p xs)) ≡ passes p (find? (λ x. key x == k) xs)
  unfolding find? select_where includes
  includes-select_where p [] u = refl
  includes-select_where p (x ∷ xs) (first, rest) = elim (String_discrete (key x) k) [
    | yes hit ↦ ground (arith, absent-select_where p xs (rw hit at first))
    | no miss ↦ ground (arith, includes-select_where p xs rest)
  ]

  -- A key is in the answer if its row passes.
  pub includes-select_sorted :
      (leq : A → A → Bool) (p : A → Bool) (xs : List A)
      → KeyUnique key xs
      → includes k (map key (select_sorted leq p xs)) ≡ passes p (find? (λ x. key x == k) xs)
  unfolding select_sorted
  includes-select_sorted leq p xs u =
      includes-map_sort leq (select_where p xs) ∙ includes-select_where p xs u

module _ {ℓ} {A : Type ℓ} where
  All-insert :
      (R : A → Type ℓ) (leq : A → A → Bool) (x : A) (ys : List A)
      → R x
      → All R ys
      → All R (insert leq x ys)
  unfolding insert
  All-insert R leq x [] r rs = (r, tt)
  All-insert R leq x (y ∷ ys) r (s, rs) = elim (Bool-cases (leq x y)) [
    | inl here ↦ rw here (r, (s, rs))
    | inr later ↦ rw later (s, All-insert R leq x ys r rs)
  ]

  All-sort : (R : A → Type ℓ) (leq : A → A → Bool) (xs : List A) → All R xs → All R (sort_by leq xs)
  unfolding sort_by
  All-sort R leq [] rs = tt
  All-sort R leq (x ∷ xs) (r, rs) = All-insert R leq x (sort_by leq xs) r (All-sort R leq xs rs)

  All-select_where :
      (R P : A → Type ℓ) (p : A → Bool) (xs : List A)
      → ((x : A) → p x ≡ true → R x → P x)
      → All R xs
      → All P (select_where p xs)
  unfolding select_where
  All-select_where R P p [] both rs = tt
  All-select_where R P p (x ∷ xs) both (r, rs) = elim (Bool-cases (p x)) [
    | inl hit ↦ rw hit (both x hit r, All-select_where R P p xs both rs)
    | inr miss ↦ rw miss (All-select_where R P p xs both rs)
  ]

  All-take : (R : A → Type ℓ) (n : ℕ) (xs : List A) → All R xs → All R (take n xs)
  unfolding take
  All-take R zero xs rs = tt
  All-take R (suc n) [] rs = tt
  All-take R (suc n) (x ∷ xs) (r, rs) = (r, All-take R n xs rs)

  -- The rows of a query are rows of the table that pass its test.
  pub All-query :
      (R P : A → Type ℓ) (leq : A → A → Bool) (p : A → Bool) (n : ℕ) (xs : List A)
      → ((x : A) → p x ≡ true → R x → P x)
      → All R xs
      → All P (take n (select_sorted leq p xs))
  unfolding select_sorted
  All-query R P leq p n xs both rs =
      All-take P n (sort_by leq (select_where p xs))
        (All-sort P leq (select_where p xs) (All-select_where R P p xs both rs))

  -- With a unique key, the rows with the key are the one that is found.
  pub All-keyed :
      (key : A → String) (k : String) (row : A) (xs : List A)
      → KeyUnique key xs
      → find? (λ x. key x == k) xs ≡ some row
      → All (λ x. key x ≡ k → x ≡ row) xs
  unfolding find?
  All-keyed key k row [] u e = tt
  All-keyed key k row (x ∷ xs) (first, rest) e = elim (String_discrete (key x) k) [
    | yes hit ↦ (λ same. ground (arith, hit, e), All-absent key k row xs (rw hit at first))
    | no miss ↦ (λ same. absurd (miss same), All-keyed key k row xs rest (ground (arith, miss, e)))
  ]
    where
      All-absent :
          (key : A → String) (k : String) (row : A) (xs : List A)
          → find? (λ x. key x == k) xs ≡ none
          → All (λ x. key x ≡ k → x ≡ row) xs
      All-absent key k row [] e = tt
      All-absent key k row (x ∷ xs) e =
          (λ same. absurd (ground (arith, same, e)), All-absent key k row xs (ground (arith, e)))

module _ {A : Type 0} where
  pub All-unlisted :
      (key : A → String) (k : String) (xs : List A)
      → includes k (map key xs) ≡ false
      → All (λ x. ¬ (key x ≡ k)) xs
  unfolding includes
  All-unlisted key k [] e = tt
  All-unlisted key k (x ∷ xs) e =
      (λ same. absurd (ground (arith, same, e)), All-unlisted key k xs (ground (arith, e)))

-- A query gives each row once.
module _ {ℓ} {A : Type ℓ} (key : A → String) (leq : A → A → Bool) where
  Distinct-insert :
      (x : A) (ys : List A)
      → includes (key x) (map key ys) ≡ false
      → Distinct (map key ys)
      → Distinct (map key (insert leq x ys))
  unfolding insert includes
  Distinct-insert x [] fresh d = (refl, tt)
  Distinct-insert x (y ∷ ys) fresh (first, d) = elim (Bool-cases (leq x y)) [
    | inl here ↦ rw here (fresh, (first, d))
    | inr later ↦ rw later (
      ground (arith, fresh, first, includes-map-insert key (key y) leq x ys),
      Distinct-insert x ys (ground (arith, fresh)) d,
    )
  ]

  pub Distinct-select_sorted :
      (p : A → Bool) (xs : List A) → KeyUnique key xs → Distinct (map key (select_sorted leq p xs))
  unfolding select_sorted sort_by select_where
  Distinct-select_sorted p [] u = tt
  Distinct-select_sorted p (x ∷ xs) (first, u) = elim (Bool-cases (p x)) [
    | inl hit ↦ rw hit (
        Distinct-insert x (sort_by leq (select_where p xs))
          (includes-map_sort key (key x) leq (select_where p xs)
            ∙ absent-select_where key (key x) p xs first)
          (Distinct-select_sorted p xs u))
    | inr miss ↦ rw miss (Distinct-select_sorted p xs u)
  ]

  length-insert : (x : A) (ys : List A) → length (insert leq x ys) ≡ suc (length ys)
  unfolding insert
  length-insert x [] = refl
  length-insert x (y ∷ ys) = ground (arith, length-insert x ys)

  length-sort_by : (xs : List A) → length (sort_by leq xs) ≡ length xs
  unfolding sort_by
  length-sort_by [] = refl
  length-sort_by (x ∷ xs) = length-insert x (sort_by leq xs) ∙ ground (arith, length-sort_by xs)

  pub length-select_sorted :
      (p : A → Bool) (xs : List A) → length (select_sorted leq p xs) ≡ length (select_where p xs)
  unfolding select_sorted
  length-select_sorted p xs = length-sort_by (select_where p xs)
