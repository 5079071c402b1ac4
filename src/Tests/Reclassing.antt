-- ===== src/Tests/Reclassing.antt =====
-- The theorem on objects that leave the class, at the sample resource without its annotation.
use kong_portal_controller.Base.{
  ◌≡◌, refl, true, false, none, [], returns, string_eq, string_dec, nat_eq,
}
use kong_portal_controller.Annotations.{lookup, matches_controller_class_name}
use kong_portal_controller.Annotations.Filter.{updated, deleted, controller_class_filter}
use kong_portal_controller.Api.{KongFile}
use kong_portal_controller.Proxy.Interface.{cached_proxy}
use kong_portal_controller.Reconciler.{done, reconcile, mark_validated}
use kong_portal_controller.Reconciler.Reclassed.{reclassed-kept}
use kong_portal_controller.Fixtures.{list_cache}
use kong_portal_controller.Fixtures.Servers.{portal, portal-IsFilesApi, file_at, cluster}
use kong_portal_controller.Fixtures.Scenes.{page, Scene, full_portal, scene}

abbrev plain : KongFile
plain = record (mark_validated page) { meta = record (page.meta) { annotations = [] } }

unclaimed : matches_controller_class_name plain.meta "kong" ≡ false
unfolding lookup string_dec matches_controller_class_name
unclaimed = refl

plain_held :
    cluster.get "default" "my-kong-file" (scene plain (full_portal true)).cluster ≡ (none, plain)
unfolding lookup string_dec
plain_held = refl

reclassed-kept_example :
    (controller_class_filter "kong" false true (updated page.meta plain.meta) ≡ true)
    × (controller_class_filter "kong" false true (deleted plain.meta) ≡ false)
    × ((v : Scene) × (reconcile
            (cached_proxy list_cache portal)
            cluster
            6
            "kong"
            "default"
            "my-kong-file"
            (scene plain (full_portal true))
          ≡ returns ((done, none), v))
        × (file_at v.backend.server "content/products/test.txt"
            ≡ file_at (full_portal true) "content/products/test.txt"))
reclassed-kept_example =
    reclassed-kept list_cache portal cluster portal-IsFilesApi 6 "kong" "default" "my-kong-file"
      page.meta plain (scene plain (full_portal true)) "content/products/test.txt" plain_held refl
      unclaimed
