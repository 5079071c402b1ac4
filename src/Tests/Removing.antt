-- ===== src/Tests/Removing.antt =====
-- Removals of the sample resource from the cluster.
use kong_portal_controller.Base.{Option, Error, ℕ_discrete}
use kong_portal_controller.Reconciler.Deletion.{IsLeaving, deleted-unfinished}
use kong_portal_controller.Proxy.Contract.{table_of}
use kong_portal_controller.Proxy.Interface.{cached_proxy}
use kong_portal_controller.Base.{
  String, ◌≡◌, refl, ◌≢◌, ◌↔◌, Bool, true, false, none, some, [], ◌∷◌, arith, message, returns,
  string_eq, nat_eq, string_dec,
}
use text.Mathlib.TextEquality.{eq_iff}
use kong_portal_controller.Annotations.{lookup, matches_controller_class_name}
use kong_portal_controller.Build.{build}
use kong_portal_controller.Base.Text.{trim_space, is_space}
use kong_portal_controller.Service
use kong_portal_controller.Store.{key_of}
use kong_portal_controller.Proxy.Laws.{path_of, contents_of}
use kong_portal_controller.Reconciler.{done, again, reconcile, ReconcileResult, mark_validated}
use kong_portal_controller.Reconciler.Invariant.{IsCoherent}
use kong_portal_controller.Reconciler.Sync.{IsLive}
use kong_portal_controller.Reconciler.Sharing.{shared-lost}
use kong_portal_controller.Api.{KongFile}
use kong_portal_controller.Reconciler.Removal.{IsGone, removed-then-done, refused-forgotten}
use kong_portal_controller.Fixtures.{list_cache, list_cache-IsCache}
use kong_portal_controller.Fixtures.Servers.{
  blank_kong_file, portal, portal-IsFilesApi, file_at, cluster, cluster-KeepsNames, serve,
}
use kong_portal_controller.Fixtures.Scenes.{
  page, Scene, up_portal, scene, page-IsLive, sent, stored_memory, full_portal, orphan,
  scene-IsCoherent, gone,
}
use kong_portal_controller.Reconciler.Lifecycle.{created-then-removed}

orphan-IsCoherent :
    (up : Bool)
    → IsCoherent
        (cached_proxy list_cache portal)
        (table_of list_cache portal list_cache-IsCache)
        stored_memory
        (orphan up).backend
unfolding lookup
orphan-IsCoherent up k r e = ground arith

orphan_cached :
    (up : Bool)
    → list_cache-IsCache.find (orphan up).backend.cache (key_of "default" "my-kong-file") ≡ some 0
unfolding lookup string_dec
orphan_cached up = refl

deletable : (Service.delete portal (build (mark_validated page)) (full_portal true)).0.1 ≡ none
unfolding build Service.delete serve string_dec Service.is_empty_string trim_space is_space
deletable = refl

undeletable :
    (Service.delete portal (build (mark_validated page)) (full_portal false)).0.1
    ≡ some (message "connection refused")
unfolding build Service.delete serve string_dec Service.is_empty_string trim_space is_space
undeletable = refl

elsewhere_too : ◌≢◌ {A = String} "content/about.txt" (path_of (build (mark_validated page)))
unfolding build string_dec
elsewhere_too = ground (arith, eq_iff "content/about.txt" "content/products/test.txt")

removed-then-done_example :
    (w₁ w₂ : Scene) × (reconcile
        (cached_proxy list_cache portal)
        cluster
        7
        "kong"
        "default"
        "my-kong-file"
        (orphan true)
      ≡ returns ((again, none), w₁))
    × (file_at w₁.backend.server (path_of (build (mark_validated page))) ≡ none)
    × (file_at w₁.backend.server "content/about.txt"
        ≡ file_at (full_portal true) "content/about.txt")
    × (list_cache-IsCache.find w₁.backend.cache (key_of "default" "my-kong-file") ≡ none)
    × (reconcile (cached_proxy list_cache portal) cluster 8 "kong" "default" "my-kong-file" w₁
        ≡ returns ((done, none), w₂))
    × (w₂.backend ≡ w₁.backend)
removed-then-done_example =
    removed-then-done list_cache portal cluster list_cache-IsCache portal-IsFilesApi 7 8 "kong"
      "default" "my-kong-file" "content/about.txt" 0 (orphan true) gone (orphan-IsCoherent true)
      (orphan_cached true) deletable elsewhere_too

refused-forgotten_example :
    (w₁ w₂ : Scene) × (reconcile
        (cached_proxy list_cache portal)
        cluster
        7
        "kong"
        "default"
        "my-kong-file"
        (orphan false)
      ≡ returns ((done, some (message "connection refused")), w₁))
    × (w₁.backend.server
        ≡ (Service.delete portal (build (mark_validated page)) (full_portal false)).1)
    × (list_cache-IsCache.find w₁.backend.cache (key_of "default" "my-kong-file") ≡ none)
    × (reconcile (cached_proxy list_cache portal) cluster 8 "kong" "default" "my-kong-file" w₁
        ≡ returns ((done, none), w₂))
    × (w₂.backend ≡ w₁.backend)
refused-forgotten_example =
    refused-forgotten list_cache portal cluster list_cache-IsCache 7 8 "kong" "default"
      "my-kong-file" 0 (message "connection refused") (orphan false) gone (orphan-IsCoherent false)
      (orphan_cached false) undeletable

-- The page is in the cluster, in Kong, and past its deletion time.
abbrev leaving_page : KongFile
leaving_page = record (mark_validated page) {
  meta = record (page.meta) { deletion_timestamp = some 3 };
}

abbrev leaving_scene : Scene
leaving_scene = record (orphan true) {
  cluster = (key_of "default" "my-kong-file", leaving_page) ∷ [];
}

page-IsLeaving :
    IsLeaving list_cache portal cluster 5 "default" "my-kong-file" leaving_page
      leaving_scene.cluster
unfolding lookup string_dec ℕ_discrete
page-IsLeaving = record { time = 3; got = refl; timed = refl; set = refl; passed = omega arith }

deleted-unfinished_example :
    let f = build leaving_page in
    let asked = Service.get portal f (full_portal true) in
    (reply : ReconcileResult × Option Error) × (w' : Scene) × (reconcile
        (cached_proxy list_cache portal)
        cluster
        5
        "kong"
        "default"
        "my-kong-file"
        leaving_scene
      ≡ returns (reply, w'))
    × ((reply ≡ (again, none))
        ↔ ((asked.0.1 ≡ none) × ((Service.delete portal f asked.1).0.1 ≡ none)))
    × (reply ≢ (done, none))
    × (cluster.get "default" "my-kong-file" w'.cluster ≡ (none, leaving_page))
deleted-unfinished_example =
    deleted-unfinished list_cache portal cluster portal-IsFilesApi 5 "kong" "default" "my-kong-file"
      leaving_page leaving_scene page-IsLeaving

unsent : file_at up_portal (path_of (build page)) ≡ none
unfolding build lookup string_dec
unsent = refl

deletable_later :
    (Service.delete portal (build page) (Service.update portal (build page) up_portal).1).0.1 ≡ none
unfolding build Service.update Service.delete serve string_dec Service.is_empty_string trim_space
    is_space
deletable_later = refl

created-then-removed_example :
    (w₁ w₂ : Scene) × (reconcile
        (cached_proxy list_cache portal)
        cluster
        5
        "kong"
        "default"
        "my-kong-file"
        (scene page up_portal)
      ≡ returns ((done, none), w₁))
    × (file_at w₁.backend.server (path_of (build page)) ≡ some (contents_of (build page)))
    × (reconcile
          (cached_proxy list_cache portal)
          cluster
          7
          "kong"
          "default"
          "my-kong-file"
          (record w₁ { cluster = [] })
        ≡ returns ((again, none), w₂))
    × (file_at w₂.backend.server "content/about.txt" ≡ file_at up_portal "content/about.txt")
    × (list_cache-IsCache.find w₂.backend.cache (key_of "default" "my-kong-file") ≡ none)
created-then-removed_example =
    created-then-removed list_cache portal cluster list_cache-IsCache portal-IsFilesApi
      cluster-KeepsNames 5 7 "kong" "default" "my-kong-file" page (scene page up_portal) []
      "content/about.txt" scene-IsCoherent (page-IsLive page up_portal refl) refl refl unsent sent
      deletable_later refl gone

-- Another object with the same path, which is in the cluster and validated.
abbrev twin : KongFile
twin = record (mark_validated page) { meta = record (page.meta) { name = "twin" } }

abbrev twins : Scene
twins = record (orphan true) { cluster = (key_of "default" "twin", twin) ∷ [] }

twin_left : IsGone list_cache portal cluster "default" "my-kong-file" twins.cluster
unfolding lookup string_dec
twin_left = record {
  failure = message "not found";
  left = blank_kong_file;
  answer = refl;
  not_found = refl;
}

twin_held : IsLive list_cache portal cluster "kong" "default" "twin" twin twins
unfolding lookup string_dec matches_controller_class_name
twin_held = record { got = refl; kept = refl; ours = refl }

twin_path : path_of (build twin) ≡ path_of (build (mark_validated page))
unfolding build string_dec
twin_path = refl

shared-lost_example :
    (u v : Scene) × (reconcile
        (cached_proxy list_cache portal)
        cluster
        7
        "kong"
        "default"
        "my-kong-file"
        twins
      ≡ returns ((again, none), u))
    × (reconcile (cached_proxy list_cache portal) cluster 8 "kong" "default" "twin" u
        ≡ returns ((done, none), v))
    × (file_at v.backend.server (path_of (build twin)) ≡ none)
    × (cluster.get "default" "twin" v.cluster ≡ (none, twin))
shared-lost_example =
    shared-lost list_cache portal cluster list_cache-IsCache portal-IsFilesApi 7 8 "kong" "default"
      "my-kong-file" "default" "twin" 0 twin twins twin_left (orphan-IsCoherent true)
      (orphan_cached true) deletable twin_held refl twin_path
