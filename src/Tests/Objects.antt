-- ===== src/Tests/Objects.antt =====
-- The theorems on objects, reviews and the cache at concrete inputs.
use kong_portal_controller.Base.{
  ◌≡◌, refl, ◌↔◌, inl, true, false, ◌||◌, none, some, [], ◌∷◌, arith, ok, err, returns, string_eq,
  nat_eq, string_dec,
}
use text.Mathlib.TextEquality.{eq_iff}
use kong_portal_controller.Annotations.{controller_class_validator, matches_controller_class_name}
use kong_portal_controller.Annotations.Filter.{
  updated, controller_class_filter, filter-eq-matches, is_update,
}
use kong_portal_controller.Api.{KongFile, ObjectMeta}
use kong_portal_controller.Build.Folders.{is_known_kind}
use kong_portal_controller.Service.{path_error}
use kong_portal_controller.Store.{kong_file}
use kong_portal_controller.Store.Cache.{Memory}
use kong_portal_controller.Store.Lister.{
  list_kong_files, list_all_kong_files, of_class, list_kong_files-of_class,
}
use kong_portal_controller.Proxy.{Backend, update_object}
use kong_portal_controller.Admission.{validate_kong_file}
use kong_portal_controller.Admission.Checks.{IsComplete, validate_kong_file_iff, valid_yet_refused}
use kong_portal_controller.Fixtures.{list_cache, list_cache-IsCache}
use kong_portal_controller.Fixtures.Servers.{portal}
use kong_portal_controller.Fixtures.Scenes.{specification}

-- The sample with no kind, which the resource's schema allows.
abbrev kindless : KongFile
kindless = record specification { spec = record (specification.spec) { kind = "" } }

known :
    (is_known_kind "SPECIFICATION" ≡ true)
    × (is_known_kind "CONTENT" ≡ true)
    × (is_known_kind "" ≡ false)
unfolding is_known_kind string_dec
known = (refl, refl, refl)

abbrev memory_of : KongFile → Memory
memory_of obj = record { next = 1; cell = λ r. obj }

abbrev backend : Backend list_cache portal
backend = record {
  cache = [];
  server = record { files = ("/files/specs/test/specs/test.yaml", "old") ∷ []; up = true };
}

complete : IsComplete kindless
complete = record {
  named = ground (arith, eq_iff "my-kong-file-spec" "");
  file_named = ground (arith, eq_iff "test.yaml" "");
  placed = ground (arith, eq_iff "test/specs" "");
  titled = inl (ground (arith, eq_iff "" "CONTENT"));
}

validate_kong_file_iff_example :
    (((validate_kong_file kindless).0 ≡ true) ↔ IsComplete kindless)
    × (((validate_kong_file kindless).1 ≡ "") ↔ ((validate_kong_file kindless).0 ≡ true))
validate_kong_file_iff_example = validate_kong_file_iff kindless

valid_yet_refused_example :
    ((validate_kong_file kindless).0 ≡ true)
    × ((update_object list_cache portal (memory_of kindless) (kong_file 0) backend).0
        ≡ some (path_error "Update"))
    × ((update_object list_cache portal (memory_of kindless) (kong_file 0) backend).1.server
        ≡ backend.server)
valid_yet_refused_example =
    valid_yet_refused list_cache portal list_cache-IsCache (memory_of kindless) 0 backend complete
      known.2

abbrev bare : ObjectMeta
bare = record { namespace = "default"; name = "x"; annotations = []; deletion_timestamp = none }

filter-eq-matches_example :
    controller_class_filter "kong" false true (updated specification.meta bare)
    ≡ (is_update (updated specification.meta bare) || matches_controller_class_name bare "kong")
filter-eq-matches_example = filter-eq-matches "kong" (updated specification.meta bare)

list_kong_files-of_class_example :
    list_kong_files list_cache
      (controller_class_validator "kong")
      (memory_of specification)
      (("default/x", 0) ∷ [])
    ≡ returns (elim (list_all_kong_files list_cache (("default/x", 0) ∷ [])) [
      | ok items ↦ ok (of_class "kong" (memory_of specification) items)
      | err e ↦ err e
    ])
list_kong_files-of_class_example =
    list_kong_files-of_class list_cache "kong" (memory_of specification) (("default/x", 0) ∷ [])
