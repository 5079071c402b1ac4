-- ===== src/Tests/Tracing.antt =====
-- The theorems on runs at a run of one reconciliation.
use kong_portal_controller.Reconciler.Mirror.{asked}
use kong_portal_controller.Fixtures.Scenes.{Scene}
use kong_portal_controller.Base.{[], ◌∷◌}
use kong_portal_controller.Reconciler.Simulation.{events_of}
use kong_portal_controller.Proxy.Contract.{table_of, files_of}
use kong_portal_controller.Proxy.Interface.{cached_proxy}
use kong_portal_controller.Base.{
  ◌≡◌, ◌≢◌, inl, inr, true, false, none, some, arith, returns, string_eq, nat_eq, string_dec,
}
use kong_portal_controller.Annotations.{lookup, matches_controller_class_name}
use kong_portal_controller.Build.{build}
use kong_portal_controller.Build.Folders.{IsManaged, head_apart}
use kong_portal_controller.Proxy.Laws.{path_of, contents_of}
use kong_portal_controller.Reconciler.{done, reconcile, Reply}
use kong_portal_controller.Reconciler.Invariant.{IsCoherentWorld}
use kong_portal_controller.Reconciler.Safety.{status_written_after_file}
use kong_portal_controller.Reconciler.Trace.{
  Reach, here, next, reconciled, Reach-returns, Reach-unmanaged,
}
use kong_portal_controller.Reconciler.Mirror.{History}
use kong_portal_controller.Reconciler.Effects.{view}
use kong_portal_controller.Reconciler.Refinement.{Serves, reconcile-Serves}
use kong_portal_controller.Reconciler.Simulation.{Reach-History}
use kong_portal_controller.Fixtures.{list_cache, list_cache-IsCache}
use kong_portal_controller.Fixtures.Servers.{
  portal, portal-IsFilesApi, file_at, cluster, cluster-KeepsNames,
}
use kong_portal_controller.Fixtures.Scenes.{
  page, up_portal, scene, first_world, first_reply, scene-IsCoherent,
}

status_changed : first_world.cluster ≢ (scene page up_portal).cluster
status_changed e = ground arith

status_written_after_file_example :
    (page.status.validated ≡ false)
    × (matches_controller_class_name page.meta "kong" ≡ true)
    × (file_at first_world.backend.server (path_of (build page)) ≡ some (contents_of (build page)))
unfolding lookup string_dec
status_written_after_file_example =
    status_written_after_file list_cache portal cluster portal-IsFilesApi 5 "kong" "default"
      "my-kong-file" (scene page up_portal) ((done, none), first_world) first_reply status_changed

short_run : Reach list_cache portal cluster "kong" (scene page up_portal) first_world
short_run = next here (
    reconciled 5 "default" "my-kong-file" (scene page up_portal) first_world (done, none)
      first_reply)

Reach-returns_example :
    (reply : Reply (cached_proxy list_cache portal) cluster) × (reconcile
        (cached_proxy list_cache portal)
        cluster
        9
        "kong"
        "default"
        "my-kong-file"
        first_world
      ≡ returns reply)
    × IsCoherentWorld
        (cached_proxy list_cache portal)
        (table_of list_cache portal list_cache-IsCache)
        cluster
        reply.1
Reach-returns_example =
    Reach-returns list_cache portal cluster "kong" list_cache-IsCache cluster-KeepsNames
      (scene page up_portal) first_world 9 "default" "my-kong-file" scene-IsCoherent short_run

foreign_file : ¬ IsManaged "themes/base/style.css"
foreign_file h = elim h [
  | inl (rest, e) ↦ head_apart "t" "c" "hemes/base/style.css" "ontent/" rest (omega arith) e
  | inr (inl (rest, e)) ↦
      head_apart "t" "b" "hemes/base/style.css" "ase/assets/" rest (omega arith) e
  | inr (inr (rest, e)) ↦ head_apart "t" "s" "hemes/base/style.css" "pecs/" rest (omega arith) e
]

Reach-unmanaged_example :
    file_at first_world.backend.server "themes/base/style.css"
    ≡ file_at up_portal "themes/base/style.css"
Reach-unmanaged_example =
    Reach-unmanaged list_cache portal cluster "kong" list_cache-IsCache portal-IsFilesApi
      "themes/base/style.css" foreign_file short_run

reconcile-Serves_example :
    (reply : Reply (cached_proxy list_cache portal) cluster) × (reconcile
        (cached_proxy list_cache portal)
        cluster
        5
        "kong"
        "default"
        "my-kong-file"
        (scene page up_portal)
      ≡ returns reply)
    × Serves
        (cached_proxy list_cache portal)
        cluster
        (table_of list_cache portal list_cache-IsCache)
        (files_of list_cache portal portal-IsFilesApi)
        cluster-KeepsNames
        5
        "kong"
        "default"
        "my-kong-file"
        (cluster.get "default" "my-kong-file" (scene page up_portal).cluster)
        (scene page up_portal)
        reply
reconcile-Serves_example =
    reconcile-Serves (cached_proxy list_cache portal) cluster
      (table_of list_cache portal list_cache-IsCache) (files_of list_cache portal portal-IsFilesApi)
      cluster-KeepsNames 5 "kong" "default" "my-kong-file" (scene page up_portal) scene-IsCoherent

Reach-History_example :
    let mirror = λ (w : Scene).
      view
        (cached_proxy list_cache portal)
        (table_of list_cache portal list_cache-IsCache)
        (files_of list_cache portal portal-IsFilesApi)
        w.memory
        w.backend in
    History cluster "kong"
      (mirror (scene page up_portal))
      (asked 5 "default" "my-kong-file" (scene page up_portal).cluster none ∷ [])
      (mirror first_world)
unfolding events_of short_run
Reach-History_example =
    Reach-History list_cache portal cluster "kong" list_cache-IsCache portal-IsFilesApi
      cluster-KeepsNames scene-IsCoherent short_run
