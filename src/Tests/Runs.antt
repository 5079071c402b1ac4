-- ===== src/Tests/Runs.antt =====
-- Runs of the code on concrete inputs.
use kong_portal_controller.Proxy.Interface.{cached_proxy}
use kong_portal_controller.Base.{
  [], false, nat_eq, none, refl, returns, some, string_dec, string_eq, true, ℕ_discrete, ◌∷◌, ◌≡◌,
}
use kong_portal_controller.Annotations.{lookup, matches_controller_class_name}
use kong_portal_controller.Build.{build}
use kong_portal_controller.Service.{is_empty_string}
use kong_portal_controller.Store.{key_func, key_of}
use kong_portal_controller.Proxy.{update_object}
use kong_portal_controller.Admission.{validate_kong_file}
use kong_portal_controller.Fixtures.{list_cache}
use kong_portal_controller.Fixtures.Servers.{cluster, file_at, portal, serve}
use kong_portal_controller.Fixtures.Scenes.{Scene, page, scene, specification, up_portal}
use kong_portal_controller.Service
use kong_portal_controller.Base.Text.{is_space, trim_space}
use kong_portal_controller.Reconciler.{done, mark_validated, reconcile}

specification_built :
    ((build specification).path ≡ some "specs/test/specs/test.yaml")
    × ((build specification).contents ≡ some "asyncapi: 2.0.0")
unfolding build string_dec
specification_built = (refl, refl)

-- cr-kongfile-invalid.yaml has neither a file name nor a title.
sample_invalid :
    validate_kong_file (record page { spec = record (page.spec) { name = "" } })
    ≡ (false, "file name cannot be empty")
unfolding validate_kong_file string_dec
sample_invalid = refl

class_matches : matches_controller_class_name specification.meta "kong" ≡ true
unfolding matches_controller_class_name lookup string_dec
class_matches = refl

-- The page is in Kong after one reconciliation, and the cluster says so.
first_run :
    (w : Scene) × (reconcile
        (cached_proxy list_cache portal)
        cluster
        5
        "kong"
        "default"
        "my-kong-file"
        (scene page up_portal)
      ≡ returns ((done, none), w))
    × (file_at w.backend.server "content/products/test.txt"
        ≡ some "---\ntitle: test\nlayout: data.html\n---\n### this is my file content !")
    × (w.cluster ≡ (key_of "default" "my-kong-file", mark_validated page) ∷ [])
unfolding reconcile update_object lookup matches_controller_class_name string_dec ℕ_discrete build
    Service.update serve key_func Service.is_empty_string trim_space is_space
first_run = (_, refl, refl, refl)
