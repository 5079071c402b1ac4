-- ===== src/Annotations/Filter.antt =====
-- internal/controllers/utils/utils.go: the predicate that filters the watch events.
use kong_portal_controller.Base.{
  String, ◌≡◌, Bool, true, false, ◌||◌, ◌&&◌, none, some, arith, if◌then◌else◌, ◌==◌, string_eq,
}
use kong_portal_controller.Api.{ObjectMeta}
use kong_portal_controller.Annotations.{lookup, controller_class_key, matches_controller_class_name}

unfoldable pub is_controller_class_annotation_configured : ObjectMeta → String → Bool
is_controller_class_annotation_configured meta expected =
    elim (lookup controller_class_key meta.annotations) [
      | none ↦ false
      | some found ↦ if found == expected then true else false
    ]

unfoldable pub is_controller_class_spec_configured : ObjectMeta → String → Bool
is_controller_class_spec_configured meta expected = true

-- The events of a watch, with the object before and after an update.
pub data Event : Type 0 where
  created deleted generic : ObjectMeta → Event
  updated : ObjectMeta → ObjectMeta → Event

-- The function given to `NewPredicateFuncs`, for creation, deletion and generic events.
admits_object : String → Bool → Bool → ObjectMeta → Bool
unfolding is_controller_class_annotation_configured is_controller_class_spec_configured
admits_object class spec_check annotation_check meta =
    if annotation_check && is_controller_class_annotation_configured meta class
    then true
    else if spec_check && is_controller_class_spec_configured meta class
    then true
    else false

-- `UpdateFunc`. In Go `a && b || c` is `(a && b) || c`.
admits_update : String → Bool → Bool → ObjectMeta → ObjectMeta → Bool
unfolding is_controller_class_annotation_configured is_controller_class_spec_configured
admits_update class spec_check annotation_check old new =
    if (annotation_check && is_controller_class_annotation_configured old class)
      || is_controller_class_annotation_configured new class
    then true
    else if (spec_check && is_controller_class_spec_configured old class)
        || is_controller_class_spec_configured new class
    then true
    else false

unfoldable pub controller_class_filter : String → Bool → Bool → Event → Bool
unfolding admits_object admits_update
controller_class_filter class spec_check annotation_check (created meta) =
    admits_object class spec_check annotation_check meta
controller_class_filter class spec_check annotation_check (deleted meta) =
    admits_object class spec_check annotation_check meta
controller_class_filter class spec_check annotation_check (generic meta) =
    admits_object class spec_check annotation_check meta
controller_class_filter class spec_check annotation_check (updated old new) =
    admits_update class spec_check annotation_check old new

-- The meta data that an event carries last.
abbrev pub subject : Event → ObjectMeta
subject (created meta) = meta
subject (deleted meta) = meta
subject (generic meta) = meta
subject (updated old new) = new

abbrev pub is_update : Event → Bool
is_update (updated old new) = true
is_update _ = false

-- As `SetupWithManager` builds it (annotations checked, the specification not), the filter lets an
-- event through exactly when it is an update or its object carries the annotation of the class.
pub filter-eq-matches :
    (class : String) (e : Event)
    → controller_class_filter class false true e
      ≡ (is_update e || matches_controller_class_name (subject e) class)
unfolding controller_class_filter matches_controller_class_name
filter-eq-matches class (created meta) = ground arith
filter-eq-matches class e = ground arith
