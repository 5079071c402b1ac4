-- ===== src/Base/Action.antt =====
-- A Go function that changes a state, may return early with an error, and may panic or block.
use Prim.Native.String.{String}
use mathlib.Core.Path.{◌≡◌, refl, subst}
use mathlib.Core.Logic.{◌⊎◌, inl, inr}
use mathlib.Core.Bool.{Bool, true, false}
use mathlib.Core.Option.{Option, none, some}
use native.Mathlib.Omega.{arith}
use kong_portal_controller.Base.Errors.{
  Error, context, Result, ok, err, Outcome, returns, panics, blocks,
}

abbrev pub Action : Type 0 → Type 0 → Type 0
Action S A = S → Outcome (Result A × S)

-- `if err != nil { return err }` after each call.
infixl 5 ◌>>=◌ ◌>>◌
abbrev pub ◌>>=◌ : {S T U : Type 0} → Action S T → (T → Action S U) → Action S U
◌>>=◌ call rest s = elim (call s) [
  | panics ↦ panics
  | blocks ↦ blocks
  | returns (err e, s') ↦ returns (err e, s')
  | returns (ok value, s') ↦ rest value s'
]

abbrev pub ◌>>◌ : {S U : Type 0} → Action S (Unit {0}) → Action S U → Action S U
first >> second = first >>= λ _. second

-- A call that only reads the state.
abbrev pub reads : {S A : Type 0} → (S → Result A) → Action S A
reads f s = returns (f s, s)

-- An error that is none is a success.
abbrev pub checked : {A : Type 0} → Option Error × A → Result A
checked (none, a) = ok a
checked (some e, a) = err e

-- `return fmt.Errorf("…: %w", err)`
abbrev pub wrapped : {S A : Type 0} → String → Action S A → Action S A
wrapped text call s = elim (call s) [
  | panics ↦ panics
  | blocks ↦ blocks
  | returns (result, s') ↦ returns (context text result, s')
]

-- A property of the state that a call keeps, whatever it returns.
abbrev pub Keeps : {S A : Type 0} → (S → Type 0) → Action S A → Type 0
Keeps {S} {A} P call = (s s' : S) (r : Result A) → call s ≡ returns (r, s') → P s → P s'

Outcome-cases :
    {S T : Type 0} (o : Outcome (Result T × S))
    → ((o ≡ panics) ⊎ (o ≡ blocks))
      ⊎ (((a : T) × (s : S) × (o ≡ returns (ok a, s)))
          ⊎ ((e : Error) × (s : S) × (o ≡ returns (err e, s))))
Outcome-cases panics = inl (inl refl)
Outcome-cases blocks = inl (inr refl)
Outcome-cases (returns (ok a, s)) = inr (inl (a, s, refl))
Outcome-cases (returns (err e, s)) = inr (inr (e, s, refl))

-- If the whole leaves a state where the property fails, the first call succeeded and kept it.
pub bind_broken :
    {S T U : Type 0} (P : S → Type 0) (call : Action S T) (rest : T → Action S U) (s s' : S)
    (r : Result U)
    → Keeps P call
    → P s
    → ¬ P s'
    → (call >>= rest) s ≡ returns (r, s')
    → (a : T) × (s₁ : S) × (call s ≡ returns (ok a, s₁)) × P s₁ × (rest a s₁ ≡ returns (r, s'))
bind_broken P call rest s s' r keeps holds broken h = elim (Outcome-cases (call s)) [
  | inl (inl stop) ↦ absurd (ground arith)
  | inl (inr stop) ↦ absurd (ground arith)
  | inr (inr (e, s₁, failed)) ↦
      let same : s₁ ≡ s' = ground arith in
      absurd (broken (subst P same (keeps s s₁ (err e) failed holds)))
  | inr (inl (a, s₁, fine)) ↦ (a, s₁, fine, keeps s s₁ (ok a) fine holds, ground arith)
]

-- If the whole succeeds, the first call succeeded.
pub bind_ok :
    {S T U : Type 0} (call : Action S T) (rest : T → Action S U) (s s' : S) (u : U)
    → (call >>= rest) s ≡ returns (ok u, s')
    → (a : T) × (s₁ : S) × (call s ≡ returns (ok a, s₁)) × (rest a s₁ ≡ returns (ok u, s'))
bind_ok call rest s s' u h = elim (Outcome-cases (call s)) [
  | inl (inl stop) ↦ absurd (ground arith)
  | inl (inr stop) ↦ absurd (ground arith)
  | inr (inr (e, s₁, failed)) ↦ absurd (ground arith)
  | inr (inl (a, s₁, fine)) ↦ (a, s₁, fine, ground arith)
]

-- The call returns.
abbrev pub ends {ℓ} : {A : Type ℓ} → Outcome A → Bool
ends (returns a) = true
ends panics = false
ends blocks = false

pub ends_returns {ℓ} : {A : Type ℓ} (o : Outcome A) → ends o ≡ true → (a : A) × (o ≡ returns a)
ends_returns (returns a) h = (a, refl)
ends_returns panics h = absurd (ground arith)
ends_returns blocks h = absurd (ground arith)

pub ends-bind :
    {S T U : Type 0} (P : S → Type 0) (call : Action S T) (rest : T → Action S U) (s : S)
    → Keeps P call
    → P s
    → ends (call s) ≡ true
    → ((a : T) (s₁ : S) → P s₁ → ends (rest a s₁) ≡ true)
    → ends ((call >>= rest) s) ≡ true
ends-bind P call rest s keeps holds first next = elim (Outcome-cases (call s)) [
  | inl (inl stop) ↦ ground arith
  | inl (inr stop) ↦ ground arith
  | inr (inr (e, s₁, failed)) ↦ ground arith
  | inr (inl (a, s₁, fine)) ↦ ground (arith, next a s₁ (keeps s s₁ (ok a) fine holds))
]
