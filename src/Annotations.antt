-- ===== src/Annotations.antt =====
-- internal/annotations/annotations.go and the annotation tests of internal/controllers/utils/utils.go.
pub mod Filter
pub mod Class
use kong_portal_controller.Base.{
  ◌==◌, string_eq, nat_eq, if◌then◌else◌, Option, none, some, List, [], ◌∷◌, String, Bool, true,
  false, ℕ, ◌||◌, Outcome, returns, panics,
}
use kong_portal_controller.Api.{ObjectMeta}

abbrev pub controller_class_key : String
controller_class_key = "developer.konghq.com/controller.class"

-- The `iota` constants of `ClassMatching`, an `int`. (A negative one is as the numbers above 2.)
abbrev pub ClassMatching : Type 0
ClassMatching = ℕ

abbrev pub ignore_class_match : ClassMatching
ignore_class_match = 0

abbrev pub exact_or_empty_class_match : ClassMatching
exact_or_empty_class_match = 1

abbrev pub exact_class_match : ClassMatching
exact_class_match = 2

unfoldable pub valid_controller : String → String → ClassMatching → Outcome Bool
valid_controller value class handling =
    if handling == ignore_class_match
    then returns true
    else if handling == exact_or_empty_class_match
    then returns (value == "" || value == class)
    else if handling == exact_class_match
    then returns (value == class)
    else panics

-- `m[key]` on a map: the value and whether the key is there.
unfoldable pub lookup {ℓ} : {A : Type ℓ} → String → List (String × A) → Option A
lookup key [] = none
lookup key ((k, v) ∷ m) = if k == key then some v else lookup key m

-- A missing key reads as the empty text.
abbrev pub or_empty : Option String → String
or_empty none = ""
or_empty (some v) = v

unfoldable pub controller_class_validator : String → ObjectMeta → ClassMatching → Outcome Bool
controller_class_validator class meta handling =
    valid_controller (or_empty (lookup controller_class_key meta.annotations)) class handling

-- `ok && foundValue == expectedValue`
abbrev found_is : Option String → String → Bool
found_is none expected = false
found_is (some v) expected = v == expected

unfoldable pub has_annotation : ObjectMeta → String → String → Bool
has_annotation meta key expected = found_is (lookup key meta.annotations) expected

unfoldable pub matches_controller_class_name : ObjectMeta → String → Bool
unfolding has_annotation
matches_controller_class_name meta class = has_annotation meta controller_class_key class
