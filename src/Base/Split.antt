-- ===== src/Base/Split.antt =====
-- `strings.SplitN` for a separator of one character.
use Prim.Native.Nat.{ℕ, zero, suc}
use Prim.Native.Char.{Char, code}
use Prim.Native.String.{String, [], ◌∷◌, ◌++◌}
use mathlib.Core.Path.{◌≡◌, refl, ap}
use mathlib.Core.Logic.{◌≢◌, inl, inr, ◌↔◌}
use mathlib.Core.Option.{Option, none, some}
use mathlib.Core.List.{List}
use native.Mathlib.Omega.{arith}
use native.Mathlib.Decide.{ℕ_discrete}
use text.Mathlib.TextLemmas.{nil-append, cons-append}
use text.Mathlib.TextEquality.{Char-path}
use kong_portal_controller.Base.Equality.{◌==◌, nat_eq, if◌then◌else◌, Option-cases}

-- The text before the first separator and the text after it.
unfoldable pub cut : Char → String → Option (String × String)
cut sep [] = none
cut sep (c ∷ s) =
    let rest = cut sep s in
    if code c == code sep
    then some ([], s)
    else elim rest [ none ↦ none | some (a, b) ↦ some (c ∷ a, b) ]

-- At most `n` parts.
unfoldable pub split_n : ℕ → Char → String → List String
split_n zero sep s = List.[]
split_n (suc zero) sep s = List.◌∷◌ s List.[]
split_n (suc (suc n)) sep s = elim (cut sep s) [
  | none ↦ List.◌∷◌ s List.[]
  | some (a, b) ↦ List.◌∷◌ a (split_n (suc n) sep b)
]

-- No character of the text is the separator.
abbrev pub Lacks : Char → String → Type 0
Lacks sep [] = Unit
Lacks sep (c ∷ s) = (code c ≢ code sep) × Lacks sep s

-- A cut takes the text apart at the first separator.
pub cut_sound :
    (sep : Char) (s a b : String) → cut sep s ≡ some (a, b) → (s ≡ a ++ (sep ∷ b)) × Lacks sep a
unfolding cut
cut_sound sep [] a b h = cc
cut_sound sep (c ∷ s) a b h = elim (ℕ_discrete (code c) (code sep)) [
  | yes same ↦
      let first : a ≡ [] = ground arith in
      let rest : b ≡ s = ground arith in
      rw (first, rest) (rw nil-append (ap (λ (d : Char). d ∷ s) (Char-path c sep same)), tt)
  | no differ ↦ elim (Option-cases (cut sep s)) [
    | inl whole ↦ absurd (ground arith)
    | inr ((a', b'), e) ↦
        let first : a ≡ c ∷ a' = ground arith in
        let rest : b ≡ b' = ground arith in
        let (whole, lacks) = cut_sound sep s a' b' e in
        rw (first, rest) (rw cons-append (ap (λ (t : String). c ∷ t) whole), (differ, lacks))
  ]
]

pub cut-append : (sep : Char) (a b : String) → Lacks sep a → cut sep (a ++ (sep ∷ b)) ≡ some (a, b)
unfolding cut
cut-append sep [] b h = rw nil-append (ground arith)
cut-append sep (c ∷ a) b h = rw cons-append (ground (arith, cut-append sep a b h.1))

pub cut-Lacks : (sep : Char) (s : String) → (cut sep s ≡ none) ↔ Lacks sep s
unfolding cut
cut-Lacks sep [] = (λ h. tt, λ h. refl)
cut-Lacks sep (c ∷ s) = ground (arith, cut-Lacks sep s)
