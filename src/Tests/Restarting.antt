-- ===== src/Tests/Restarting.antt =====
-- The theorem on files without an object at the sample resource, which leaves the cluster before a
-- restart.
use kong_portal_controller.Proxy.Interface.{cached_proxy}
use kong_portal_controller.Base.{
  ◌≡◌, refl, true, none, [], arith, returns, string_eq, nat_eq, string_dec,
}
use kong_portal_controller.Annotations.{lookup}
use kong_portal_controller.Reconciler.{done, reconcile, with_name}
use kong_portal_controller.Reconciler.Trace.{reconciled}
use kong_portal_controller.Reconciler.Orphans.{
  IsAbsent, ReachWithin, still, further, restart-orphaned,
}
use kong_portal_controller.Store.{key_func}
use kong_portal_controller.Proxy.{object_exists_in_cache}
use kong_portal_controller.Store.Cache.{alloc}
use kong_portal_controller.Fixtures.{list_cache, list_cache-IsCache}
use kong_portal_controller.Fixtures.Servers.{
  portal, portal-IsFilesApi, file_at, cluster, cluster-KeepsNames, blank_kong_file,
}
use kong_portal_controller.Fixtures.Scenes.{Scene, empty_memory, full_portal, orphan}

abbrev restarted_scene : Scene
restarted_scene = record (orphan true) {
  memory = empty_memory;
  backend = record ((orphan true).backend) { cache = list_cache.new_store };
}

none_left : IsAbsent "content/products/test.txt" cluster []
unfolding lookup
none_left = record {
  objects = λ namespace name fine. absurd (ground arith);
  answers = λ obj apart. apart;
}

abbrev later_scene : Scene
later_scene = record restarted_scene {
  memory = (alloc (with_name "default" "my-kong-file" blank_kong_file) empty_memory).1;
}

unnoticed :
    reconcile
      (cached_proxy list_cache portal)
      cluster
      9
      "kong"
      "default"
      "my-kong-file"
      restarted_scene
    ≡ returns ((done, none), later_scene)
unfolding reconcile lookup key_func string_dec object_exists_in_cache
unnoticed = refl

quiet_run :
    ReachWithin list_cache portal cluster "kong"
      (IsAbsent "content/products/test.txt" cluster)
      restarted_scene
      later_scene
quiet_run =
    further still none_left
      (reconciled 9 "default" "my-kong-file" restarted_scene later_scene (done, none) unnoticed)

restart-orphaned_example :
    file_at later_scene.backend.server "content/products/test.txt"
    ≡ file_at (full_portal true) "content/products/test.txt"
restart-orphaned_example =
    restart-orphaned list_cache portal cluster "kong" list_cache-IsCache portal-IsFilesApi
      cluster-KeepsNames "content/products/test.txt" (orphan true) later_scene empty_memory
      quiet_run
