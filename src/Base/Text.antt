-- ===== src/Base/Text.antt =====
-- `strings.TrimSpace` and the other functions of Go's `strings` that the controller uses, over code
-- points. (A Go text that is not UTF-8 has no model here.)
use Prim.Native.Nat.{ℕ, compare, Ordering}
use Prim.Native.Char.{Char, code}
use Prim.Native.String.{String, [], ◌∷◌, ◌++◌}
use mathlib.Core.Path.{◌≡◌}
use mathlib.Core.Logic.{◌≢◌}
use mathlib.Core.Bool.{Bool, true, false, ◌||◌, ◌&&◌}
use native.Mathlib.Decide.{ℕ_discrete}
use text.Mathlib.TextLemmas.{cons-append, cons-ne-nil}
use kong_portal_controller.Base.Equality.{◌==◌, nat_eq, string_eq, if◌then◌else◌}

abbrev within : ℕ → ℕ → ℕ → Bool
within lo hi c = elim (compare c lo) [
  | Ordering.lt ↦ false
  | _ ↦ elim (compare c hi) [ Ordering.gt ↦ false | _ ↦ true ]
]

-- `unicode.IsSpace`
unfoldable pub is_space : Char → Bool
unfolding ℕ_discrete
is_space ch =
    let c = code ch in
    within 9 13 c
    || c == 32
    || c == 0x85
    || c == 0xA0
    || c == 0x1680
    || within 0x2000 0x200A c
    || c == 0x2028
    || c == 0x2029
    || c == 0x202F
    || c == 0x205F
    || c == 0x3000

unfoldable pub trim_left : String → String
trim_left [] = []
trim_left (c ∷ s) = let rest = trim_left s in if is_space c then rest else c ∷ s

unfoldable pub trim_right : String → String
trim_right [] = []
trim_right (c ∷ s) = let rest = trim_right s in if is_space c && rest == "" then "" else c ∷ rest

-- `strings.TrimSpace`
unfoldable pub trim_space : String → String
unfolding trim_left trim_right
trim_space s = trim_left (trim_right s)

-- A text that starts with anything but a space is not blank.
pub trim_space-cons :
    (c : Char) (s t : String) → is_space c ≡ false → trim_space ((c ∷ s) ++ t) ≢ ""
unfolding trim_space
trim_space-cons c s t h = rw (cons-append, h, h) (cons-ne-nil c _)

pub append-ne-empty : (c : Char) (s t : String) → (c ∷ s) ++ t ≢ ""
append-ne-empty c s t = rw cons-append (cons-ne-nil c _)
