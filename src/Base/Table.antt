-- ===== src/Base/Table.antt =====
-- A table of the database as the list of its rows, and the statements that the stores run on it.
use mathlib.Core.Path.{◌≡◌, refl, ap, ◌∙◌}
use mathlib.Core.Bool.{Bool, true, false}
use mathlib.Core.Option
use mathlib.Core.Option.{Option, none, some}
use mathlib.Core.List.{List, [], ◌∷◌, ◌++◌}
use native.Mathlib.Omega.{arith}
use Prim.Native.String.{String}
use mathlib.Core.Logic.{inl, inr}
use mathlib.Core.Bool.{◌&&◌}
use mailmon.Base.Tests.{if◌then◌else◌, Bool-cases, String_discrete, ◌==◌}

module _ {ℓ} {A : Type ℓ} where
  -- SELECT … WHERE p LIMIT 1
  unfoldable pub find? : (A → Bool) → List A → Option A
  find? p [] = none
  find? p (x ∷ xs) = if p x then some x else find? p xs

  -- SELECT … WHERE p
  unfoldable pub select_where : (A → Bool) → List A → List A
  select_where p [] = []
  select_where p (x ∷ xs) = let rest = select_where p xs in if p x then x ∷ rest else rest

  -- UPDATE … SET f WHERE p
  unfoldable pub update_where : (A → Bool) → (A → A) → List A → List A
  update_where p f [] = []
  update_where p f (x ∷ xs) = (if p x then f x else x) ∷ update_where p f xs

  -- DELETE … WHERE p
  unfoldable pub delete_where : (A → Bool) → List A → List A
  delete_where p [] = []
  delete_where p (x ∷ xs) = let rest = delete_where p xs in if p x then rest else x ∷ rest

  -- INSERT … ON CONFLICT (the columns that p tests) DO UPDATE SET f
  unfoldable pub upsert : (A → Bool) → A → (A → A) → List A → List A
  upsert p a f [] = a ∷ []
  upsert p a f (x ∷ xs) = let later = x ∷ upsert p a f xs in if p x then f x ∷ xs else later

  -- INSERT … ON CONFLICT (the columns that p tests) DO NOTHING
  unfoldable pub insert_unless : (A → Bool) → A → List A → List A
  insert_unless p a xs = upsert p a (λ x. x) xs

  -- An update that leaves the tested columns alone touches the row that the test finds.
  pub find?-update_where :
      (p q : A → Bool) (f : A → A) (xs : List A)
      → ((x : A) → q (f x) ≡ q x)
      → find? q (update_where p f xs) ≡ Option.map (λ x. if p x then f x else x) (find? q xs)
  unfolding find? update_where
  find?-update_where p q f [] keep = refl
  find?-update_where p q f (x ∷ xs) keep = ground (arith, keep x, find?-update_where p q f xs keep)

  abbrev pub keep_if : (A → Bool) → Option A → Option A
  keep_if p none = none
  keep_if p (some x) = if p x then some x else none

  -- What a search finds passes its test.
  pub find?_sound : (p : A → Bool) (xs : List A) (x : A) → find? p xs ≡ some x → p x ≡ true
  unfolding find?
  find?_sound p [] x e = cc
  find?_sound p (y ∷ ys) x e = elim (Bool-cases (p y)) [
    | inl hit ↦ ground (arith, hit)
    | inr miss ↦ find?_sound p ys x (rw miss at e)
  ]

  -- A test that accepts no more rows finds no more.
  pub find?-none_mono :
      (p q : A → Bool) (xs : List A)
      → ((x : A) → p x ≡ false → q x ≡ false)
      → find? p xs ≡ none
      → find? q xs ≡ none
  unfolding find?
  find?-none_mono p q [] le e = refl
  find?-none_mono p q (x ∷ xs) le e = elim (Bool-cases (p x)) [
    | inl hit ↦ absurd (ground (arith, rw hit at e))
    | inr miss ↦ rw (le x miss) (find?-none_mono p q xs le (rw miss at e))
  ]

  pub find?-append_one :
      (p : A → Bool) (xs : List A) (x : A)
      → find? p xs ≡ none
      → p x ≡ false
      → find? p (xs ++ x ∷ []) ≡ none
  unfolding find?
  find?-append_one p [] x e h = rw h refl
  find?-append_one p (y ∷ ys) x e h = ground (arith, find?-append_one p ys x)

  -- An update after which a row is found only if it was before.
  pub find?-none_update :
      (p q : A → Bool) (f : A → A) (xs : List A)
      → ((x : A) → p x ≡ true → q x ≡ false → q (f x) ≡ false)
      → find? q xs ≡ none
      → find? q (update_where p f xs) ≡ none
  unfolding find? update_where
  find?-none_update p q f [] keep e = refl
  find?-none_update p q f (x ∷ xs) keep e = ground (arith, find?-none_update p q f xs keep, keep x)

  -- The row of the conflict after an insert or update.
  pub find?-upsert :
      (p : A → Bool) (a : A) (f : A → A) (xs : List A)
      → p a ≡ true
      → ((x : A) → p (f x) ≡ p x)
      → find? p (upsert p a f xs) ≡ some (elim (find? p xs) [ none ↦ a | some x ↦ f x ])
  unfolding find? upsert
  find?-upsert p a f [] fits keep = ground (arith, fits)
  find?-upsert p a f (x ∷ xs) fits keep = ground (arith, find?-upsert p a f xs fits keep, keep x)

  -- The other rows are left alone.
  pub find?-upsert_other :
      (p q : A → Bool) (a : A) (f : A → A) (xs : List A)
      → q a ≡ false
      → ((x : A) → p x ≡ true → (q x ≡ false) × (q (f x) ≡ false))
      → find? q (upsert p a f xs) ≡ find? q xs
  unfolding find? upsert
  find?-upsert_other p q a f [] new apart = ground (arith, new)
  find?-upsert_other p q a f (x ∷ xs) new apart =
      ground (arith, find?-upsert_other p q a f xs new apart, apart x)

  -- A deletion that treats the rows sought alike.
  pub find?-delete_where :
      (p q : A → Bool) (b : Bool) (xs : List A)
      → ((x : A) → q x ≡ true → p x ≡ b)
      → find? q (delete_where p xs) ≡ (if b then none else find? q xs)
  unfolding find? delete_where
  find?-delete_where p q b [] alike = ground arith
  find?-delete_where p q b (x ∷ xs) alike =
      ground (arith, find?-delete_where p q b xs alike, alike x)

-- A row that is inserted is found, if none was.
pub find?-appended :
    {A : Type 0} (p : A → Bool) (xs : List A) (x : A)
    → find? p xs ≡ none
    → p x ≡ true
    → find? p (xs ++ x ∷ []) ≡ some x
unfolding find?
find?-appended p [] x e h = rw h refl
find?-appended p (y ∷ ys) x e h = ground (arith, find?-appended p ys x)

-- A column that is a primary key.
module _ {ℓ} {A : Type ℓ} (key : A → String) where
  abbrev pub KeyUnique : List A → Type ℓ
  KeyUnique [] = Unit
  KeyUnique (x ∷ xs) = (find? (λ y. key y == key x) xs ≡ none) × KeyUnique xs

  find?-none_and :
      (k : String) (p : A → Bool) (xs : List A)
      → find? (λ y. key y == k) xs ≡ none
      → find? (λ y. key y == k && p y) xs ≡ none
  unfolding find?
  find?-none_and k p [] e = refl
  find?-none_and k p (x ∷ xs) e = ground (arith, find?-none_and k p xs)

  -- A further condition on the row that a key names.
  pub find?-key_and :
      (k : String) (p : A → Bool) (xs : List A)
      → KeyUnique xs
      → find? (λ y. key y == k && p y) xs ≡ keep_if p (find? (λ y. key y == k) xs)
  unfolding find?
  find?-key_and k p [] u = refl
  find?-key_and k p (x ∷ xs) (first, rest) = elim (String_discrete (key x) k) [
    | yes hit ↦ ground (arith, find?-none_and k p xs, rw hit at first)
    | no miss ↦ ground (arith, find?-key_and k p xs rest)
  ]

  key_same : (b : Bool) (x y : A) → key y ≡ key x → key (if b then y else x) ≡ key x
  key_same true x y e = e
  key_same false x y e = refl

  find?-key_update :
      (k : String) (p : A → Bool) (f : A → A) (xs : List A)
      → ((x : A) → key (f x) ≡ key x)
      → find? (λ y. key y == k) xs ≡ none
      → find? (λ y. key y == k) (update_where p f xs) ≡ none
  find?-key_update k p f xs same absent =
      find?-update_where p (λ y. key y == k) f xs (λ x. rw same)
      ∙ ap (Option.map (λ x. if p x then f x else x)) absent

  -- An update that leaves the key alone keeps it unique.
  pub update_where-KeyUnique :
      (p : A → Bool) (f : A → A) (xs : List A)
      → ((x : A) → key (f x) ≡ key x)
      → KeyUnique xs
      → KeyUnique (update_where p f xs)
  unfolding update_where
  update_where-KeyUnique p f [] same u = tt
  update_where-KeyUnique p f (x ∷ xs) same (first, rest) = (
    rw (key_same (p x) x (f x) (same x)) (find?-key_update (key x) p f xs same first),
    update_where-KeyUnique p f xs same rest,
  )

  -- A row that any search finds is the row of its key.
  pub find?-by_key :
      (p : A → Bool) (xs : List A) (x : A)
      → KeyUnique xs
      → find? p xs ≡ some x
      → find? (λ y. key y == key x) xs ≡ some x
  unfolding find?
  find?-by_key p [] x u e = cc
  find?-by_key p (y ∷ ys) x (first, rest) e = elim (Bool-cases (p y)) [
    | inl hit ↦ ground (arith, rw hit at e)
    | inr miss ↦ elim (String_discrete (key y) (key x)) [
      | yes same ↦
          absurd (ground (arith, rw same at first, find?-by_key p ys x rest (rw miss at e)))
      | no different ↦ ground (arith, different, find?-by_key p ys x rest (rw miss at e))
    ]
  ]
