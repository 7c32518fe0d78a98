-- ===== src/Base/Tests.antt =====
-- Boolean tests on numbers, texts and options, and the conditional.
use Prim.Native.Nat.{ℕ, compare, Ordering}
use Prim.Native.String.{String}
use mathlib.Core.Path.{◌≡◌, refl}
use mathlib.Core.Logic.{◌⊎◌, inl, inr}
use mathlib.Core.Bool.{Bool, true, false}
use mathlib.Core.Option.{Option, none, some}
use native.Mathlib.Omega.{arith}
use text.Mathlib.Text.{◌==◌ as str_eq}
use text.Mathlib.TextEquality.{eq_iff}

abbrev pub ltb : ℕ → ℕ → Bool
ltb a b = elim (compare a b) [ Ordering.lt ↦ true | _ ↦ false ]

abbrev pub leb : ℕ → ℕ → Bool
leb a b = elim (compare a b) [ Ordering.gt ↦ false | _ ↦ true ]

abbrev pub eqb : ℕ → ℕ → Bool
eqb a b = elim (compare a b) [ Ordering.eq ↦ true | _ ↦ false ]

infix 1 if◌then◌else◌
abbrev pub if◌then◌else◌ {ℓ} : {A : Type ℓ} → Bool → A → A → A
if true then x else y = x
if false then x else y = y

pub Bool-cases : (b : Bool) → (b ≡ true) ⊎ (b ≡ false)
Bool-cases true = inl refl
Bool-cases false = inr refl

pub Option-cases {ℓ} : {A : Type ℓ} (o : Option A) → (o ≡ none) ⊎ ((a : A) × (o ≡ some a))
Option-cases none = inl refl
Option-cases (some a) = inr (a, refl)

pub unequal : (s t : String) → str_eq s t ≡ false → ¬ (s ≡ t)
unequal s t e p = ground (arith, eq_iff s t)

decide_by : (s t : String) (b : Bool) → str_eq s t ≡ b → Dec (s ≡ t)
decide_by s t true e = yes ((eq_iff s t).0 e)
decide_by s t false e = no (unequal s t e)

-- Equality of texts as a decision, so that a branch of a proof has the equation itself.
unfoldable pub String_discrete : Discrete String
unfolding decide_by
String_discrete s t = decide_by s t (str_eq s t) refl

-- `s === t`
infix 50 ◌==◌
abbrev pub ◌==◌ : String → String → Bool
s == t = elim (String_discrete s t) [ yes _ ↦ true | no _ ↦ false ]

pub ==_refl : (s : String) → (s == s) ≡ true
==_refl s = ground arith

-- `o === t` at a nullable text; `null` equals no text.
abbrev pub is_text : Option String → String → Bool
is_text none t = false
is_text (some s) t = s == t
