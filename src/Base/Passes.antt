-- ===== src/Base/Passes.antt =====
-- A pass over targets, Effect.forEach(targets, …), on a state. A step may die and end the pass; it
-- sends messages to another service, which are listed.
use Prim.Native.Nat.{suc}
use mathlib.Core.Path.{◌≡◌, ap, ◌∙◌}
use mathlib.Core.Logic.{inl, inr}
use mathlib.Core.Option.{Option, none, some}
use mathlib.Core.List.{List, [], ◌∷◌, ◌++◌, map}
use Prim.Native.String.{String}
use mathlib.Core.Bool.{true}
use native.Mathlib.Omega.{arith}
use mailmon.Base.Lists.{All, length}
use mailmon.Base.Texts.{includes}
use mailmon.Base.Tests.{Option-cases, String_discrete}

-- What a step leaves: its answer, unless it died, the messages it sent, and the state.
pub record Left (S Q A : Type 0) : Type 0 where
  pub answer : Option A
  pub sent : List Q
  pub state : S

abbrev cons_answer : {A : Type 0} → A → Option (List A) → Option (List A)
cons_answer answer none = none
cons_answer answer (some answers) = some (answer ∷ answers)

module _ {S Q A : Type 0} where
  abbrev pub followed_by : Left S Q A → (S → Left S Q (List A)) → Left S Q (List A)
  followed_by left next = elim left.answer [
    | none ↦ record { answer = none; sent = left.sent; state = left.state }
    | some answer ↦
        let rest = next left.state in
        record {
          answer = cons_answer answer rest.answer;
          sent = left.sent ++ rest.sent;
          state = rest.state;
        }
  ]

  -- What holds after the step, and after the rest of the pass, holds after both.
  pub followed_by-keeps :
      (P : S → Type 0) (left : Left S Q A) (next : S → Left S Q (List A))
      → P left.state
      → P (next left.state).state
      → P (followed_by left next).state
  followed_by-keeps P left next here later = elim (Option-cases left.answer) [
    | inl died ↦ rw died here
    | inr (answer, e) ↦ rw e later
  ]

  pub followed_by-later :
      (P : S → Type 0) (left : Left S Q A) (next : S → Left S Q (List A)) (answer : A)
      → left.answer ≡ some answer
      → P (next left.state).state
      → P (followed_by left next).state
  followed_by-later P left next answer e later = rw e later

  followed_by-answers :
      (left : Left S Q A) (next : S → Left S Q (List A)) (answers : List A)
      → (followed_by left next).answer ≡ some answers
      → (rest : List A) × ((next left.state).answer ≡ some rest)
        × (length answers ≡ suc (length rest))
  followed_by-answers left next answers e = elim (Option-cases left.answer) [
    | inl died ↦ absurd (ground (arith, rw died at e))
    | inr (answer, here) ↦ elim (Option-cases (next left.state).answer) [
      | inl later ↦ absurd (ground (arith, rw later at rw here at e))
      | inr (rest, later) ↦ (rest, later, ground (arith, rw later at rw here at e))
    ]
  ]

module _ {S Q A T : Type 0} where
  unfoldable pub for_each : (T → S → Left S Q A) → List T → S → Left S Q (List A)
  for_each step [] state = record { answer = some []; sent = []; state = state }
  for_each step (target ∷ targets) state = followed_by (step target state) (for_each step targets)

  -- A property that every step keeps holds after the pass.
  pub for_each-keeps :
      (P : S → Type 0) (step : T → S → Left S Q A)
      → ((target : T) (state : S) → P state → P (step target state).state)
      → (targets : List T) (state : S) → P state
      → P (for_each step targets state).state
  unfolding for_each
  for_each-keeps P step keep [] state h = h
  for_each-keeps P step keep (target ∷ targets) state h =
      followed_by-keeps P (step target state) (for_each step targets) (keep target state h)
        (for_each-keeps P step keep targets (step target state).state (keep target state h))

  -- The same, where the targets have a property.
  pub for_each-keeps_at :
      (P : S → Type 0) (R : T → Type 0) (step : T → S → Left S Q A)
      → ((target : T) (state : S) → R target → P state → P (step target state).state)
      → (targets : List T) (state : S) → All R targets
      → P state
      → P (for_each step targets state).state
  unfolding for_each
  for_each-keeps_at P R step keep [] state rs h = h
  for_each-keeps_at P R step keep (target ∷ targets) state (r, rs) h =
      followed_by-keeps P (step target state) (for_each step targets) (keep target state r h) (
        for_each-keeps_at P R step keep targets (step target state).state rs
          (keep target state r h))

  -- A pass in which no step dies reaches what the step on one of its targets does, if the other
  -- steps neither disturb it before nor after.
  pub for_each-reaches :
      (P G : S → Type 0) (R : T → Type 0) (key : T → String) (k : String)
      (step : T → S → Left S Q A)
      → ((target : T) (state : S) → (answer : A) × ((step target state).answer ≡ some answer))
      → ((target : T) (state : S)
          → key target ≡ k
          → R target
          → P state
          → G (step target state).state)
      → ((target : T) (state : S) → ¬ (key target ≡ k) → P state → P (step target state).state)
      → ((target : T) (state : S) → R target → G state → G (step target state).state)
      → (targets : List T) (state : S) → All R targets
      → includes k (map key targets) ≡ true
      → P state
      → G (for_each step targets state).state
  unfolding for_each includes
  for_each-reaches P G R key k step answers act wait stay [] state rs listed h =
      absurd (ground (arith, listed))
  for_each-reaches P G R key k step answers act wait stay (target ∷ targets) state (r, rs) listed
        h =
      let left = step target state in
      elim (String_discrete (key target) k) [
        | yes same ↦
            let here = act target state same r h in
            followed_by-keeps G left (for_each step targets) here
              (for_each-keeps_at G R step stay targets left.state rs here)
        | no different ↦
            followed_by-later G left (for_each step targets) (answers target state).0
              (answers target state).1
              (for_each-reaches P G R key k step answers act wait stay targets left.state rs
                (ground (arith, listed, different)) (wait target state different h))
      ]

  -- A pass that ends answers once for each target.
  pub for_each-answers :
      (step : T → S → Left S Q A) (targets : List T) (state : S) (answers : List A)
      → (for_each step targets state).answer ≡ some answers
      → length answers ≡ length targets
  unfolding for_each
  for_each-answers step [] state answers e = ground (arith, e)
  for_each-answers step (target ∷ targets) state answers e =
      let (rest, later, counted) =
        followed_by-answers (step target state) (for_each step targets) answers e in
      counted ∙ ap suc (for_each-answers step targets (step target state).state rest later)
