-- ===== src/Annotations/Class.antt =====
-- Class matching against the annotation.
use kong_portal_controller.Base.{
  String, ◌≡◌, ◌↔◌, true, some, arith, ◌<◌, returns, panics, string_eq, nat_eq,
}
use kong_portal_controller.Api.{ObjectMeta}
use kong_portal_controller.Annotations.{
  lookup, controller_class_key, matches_controller_class_name, controller_class_validator,
  valid_controller, ClassMatching,
}

-- The test of the reconciler, `MatchesControllerClassName`, holds exactly when the object carries
-- the class annotation with the controller's class as its value.
pub matches_iff :
    (meta : ObjectMeta) (class : String)
    → (matches_controller_class_name meta class ≡ true)
      ↔ (lookup controller_class_key meta.annotations ≡ some class)
unfolding matches_controller_class_name
matches_iff meta class = ground arith

-- For an object that the reconciler handles, the store's validator says yes exactly under the three
-- handlings, and panics exactly under any other.
pub validator-of_matches :
    (meta : ObjectMeta) (class : String) (handling : ClassMatching)
    → matches_controller_class_name meta class ≡ true
    → ((controller_class_validator class meta handling ≡ returns true) ↔ (handling < 3))
      × ((controller_class_validator class meta handling ≡ panics) ↔ (2 < handling))
unfolding controller_class_validator valid_controller matches_controller_class_name
validator-of_matches meta class handling h = ground arith
