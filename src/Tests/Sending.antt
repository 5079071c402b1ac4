-- ===== src/Tests/Sending.antt =====
-- The theorem on the requests of a reconciliation at the first run of the sample resource.
use kong_portal_controller.Proxy.Interface.{cached_proxy}
use kong_portal_controller.Base.{
  ◌+◌, ◌≤◌, ◌≡◌, refl, ◌⊎◌, none, [], ◌∷◌, returns, string_eq, string_dec, nat_eq,
}
use kong_portal_controller.Annotations.{lookup, matches_controller_class_name}
use kong_portal_controller.Api.{KongFile}
use kong_portal_controller.Base.Text.{trim_space, is_space}
use kong_portal_controller.Build.{build}
use kong_portal_controller.Build.Folders.{IsManaged}
use kong_portal_controller.Service
use kong_portal_controller.Service.Traffic.{recorded, length}
use kong_portal_controller.Store.{key_of}
use kong_portal_controller.Proxy.Laws.{path_of}
use kong_portal_controller.Reconciler.{World, done, reconcile}
use kong_portal_controller.Reconciler.Sync.{IsLive, accepted, reconcile-accepted}
use kong_portal_controller.Reconciler.Traffic.{forget, log, IsTraffic, reconcile-IsTraffic}
use kong_portal_controller.Fixtures.{list_cache}
use kong_portal_controller.Fixtures.Servers.{portal, cluster, serve}
use kong_portal_controller.Fixtures.Scenes.{page, empty_memory, up_portal}

abbrev Recorded : Type 0
Recorded = World (cached_proxy list_cache (recorded portal)) cluster

abbrev silent : Recorded
silent = record {
  memory = empty_memory;
  backend = record { cache = []; server = (up_portal, []) };
  cluster = (key_of "default" "my-kong-file", page) ∷ [];
}

page-IsLive :
    IsLive list_cache (recorded portal) cluster "kong" "default" "my-kong-file" page silent
unfolding lookup string_dec matches_controller_class_name
page-IsLive = record { got = refl; kept = refl; ours = refl }

page_sent : (Service.update (recorded portal) (build page) (up_portal, [])).0.1 ≡ none
unfolding build Service.update serve string_dec Service.is_empty_string trim_space is_space
page_sent = refl

abbrev heard : Recorded
heard = accepted list_cache (recorded portal) cluster page silent

reconcile-IsTraffic_example :
    let before = log list_cache portal cluster silent in
    let after = log list_cache portal cluster heard in
    (reconcile
        (cached_proxy list_cache portal)
        cluster
        5
        "kong"
        "default"
        "my-kong-file"
        (forget list_cache portal cluster silent)
      ≡ returns ((done, none), forget list_cache portal cluster heard))
    × (length after ≤ length before + 2)
    × ((after ≡ before)
        ⊎ ((obj : KongFile) × IsManaged (path_of (build obj))
            × IsTraffic list_cache portal cluster (build obj) before after))
reconcile-IsTraffic_example =
    reconcile-IsTraffic list_cache portal cluster 5 "kong" "default" "my-kong-file" silent heard
      (done, none)
      (reconcile-accepted list_cache (recorded portal) cluster 5 "kong" "default" "my-kong-file"
        page silent page-IsLive refl page_sent)
