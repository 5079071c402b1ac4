-- ===== src/Tests/Reconciling.antt =====
-- Reconciliations of the repository's sample resource cr-kongfile.yaml.
use kong_portal_controller.Proxy.Interface.{cached_proxy}
use kong_portal_controller.Base.{
  ℕ_discrete, [], ◌∷◌, ◌==◌, if◌then◌else◌, String, ◌≡◌, refl, ◌≢◌, true, false, none, some, arith,
  message, returns, string_eq, nat_eq, string_dec,
}
use text.Mathlib.TextEquality.{eq_iff}
use kong_portal_controller.Api.{KongFile}
use kong_portal_controller.Build.{build}
use kong_portal_controller.Base.Text.{trim_space, is_space}
use kong_portal_controller.Service
use kong_portal_controller.Proxy.Laws.{path_of, contents_of}
use kong_portal_controller.Reconciler.{done, reconcile, mark_validated}
use kong_portal_controller.Reconciler.Invariant.{key_of_file}
use kong_portal_controller.Annotations.{lookup, matches_controller_class_name}
use kong_portal_controller.Proxy.{update_object}
use kong_portal_controller.Store.{key_of, key_func}
use kong_portal_controller.Reconciler.Retry.{
  Refusals, no_attempt, attempt, kong_changed, refused-published,
}
use kong_portal_controller.Reconciler.Edits.{edited-stale}
use kong_portal_controller.Fixtures.{list_cache, list_cache-IsCache}
use kong_portal_controller.Fixtures.Servers.{
  blank_kong_file, Portal, portal, portal-IsFilesApi, file_at, cluster, serve,
}
use kong_portal_controller.Fixtures.Scenes.{page, Scene, up_portal, scene, page-IsLive, sent}

elsewhere : ◌≢◌ {A = String} "content/about.txt" (path_of (build page))
unfolding build string_dec
elsewhere = ground (arith, eq_iff "content/about.txt" "content/products/test.txt")

-- The page as the cluster has it after the first run, with new contents.
abbrev edited : KongFile
edited = record (mark_validated page) { spec = record (page.spec) { content = "new text" } }

edited-stale_example :
    let files = λ (w : Scene). file_at w.backend.server in
    (w₁ w₂ : Scene) × (reconcile
        (cached_proxy list_cache portal)
        cluster
        5
        "kong"
        "default"
        "my-kong-file"
        (scene page up_portal)
      ≡ returns ((done, none), w₁))
    × (reconcile
          (cached_proxy list_cache portal)
          cluster
          6
          "kong"
          "default"
          "my-kong-file"
          (record w₁ { cluster = (scene edited up_portal).cluster })
        ≡ returns ((done, none), w₂))
    × (files w₂ (path_of (build page)) ≡ some (contents_of (build page)))
    × (files w₂ "content/about.txt" ≡ file_at up_portal "content/about.txt")
edited-stale_example =
    edited-stale list_cache portal cluster portal-IsFilesApi 5 6 "kong" "default" "my-kong-file"
      page edited (scene page up_portal) (scene edited up_portal).cluster "content/about.txt"
      (page-IsLive page up_portal refl) refl sent (page-IsLive edited up_portal refl) refl elsewhere

abbrev down_portal : Portal
down_portal = record up_portal { up = false }

not_sent :
    (Service.update portal (build page) down_portal).0.1 ≡ some (message "connection refused")
unfolding build Service.update serve string_dec Service.is_empty_string trim_space is_space
not_sent = refl

-- The world after Kong has refused the page, and the same when Kong is back.
abbrev refused_world : Scene
refused_world = record {
  memory = record { next = 1; cell = λ q. if q == 0 then page else blank_kong_file };
  backend = record { cache = (key_of "default" "my-kong-file", 0) ∷ []; server = down_portal };
  cluster = (scene page down_portal).cluster;
}

refused_reply :
    reconcile
      (cached_proxy list_cache portal)
      cluster
      5
      "kong"
      "default"
      "my-kong-file"
      (scene page down_portal)
    ≡ returns ((done, some (message "connection refused")), refused_world)
unfolding reconcile update_object lookup matches_controller_class_name string_dec ℕ_discrete build
    Service.update serve key_func Service.is_empty_string trim_space is_space
refused_reply = refl

abbrev back_world : Scene
back_world = record refused_world {
  backend = record (refused_world.backend) { server = up_portal };
}

refusals :
    Refusals list_cache portal cluster "kong" "default" "my-kong-file" page
      (scene page down_portal)
      back_world
refusals = kong_changed up_portal (
    attempt 5 (message "connection refused") (done, some (message "connection refused")) no_attempt
      not_sent refused_reply)

refused-published_example :
    (w' : Scene) × (reconcile
        (cached_proxy list_cache portal)
        cluster
        6
        "kong"
        "default"
        "my-kong-file"
        back_world
      ≡ returns ((done, none), w'))
    × (file_at w'.backend.server (path_of (build page)) ≡ some (contents_of (build page)))
    × (file_at w'.backend.server "content/about.txt" ≡ file_at up_portal "content/about.txt")
    × (list_cache-IsCache.find w'.backend.cache (key_of_file page) ≡ some 1)
    × (w'.memory.cell 1 ≡ record page { status = record { validated = true } })
    × (w'.cluster
        ≡ (cluster.update_status
            (record page { status = record { validated = true } })
            (scene page down_portal).cluster).1)
refused-published_example =
    refused-published list_cache portal cluster "kong" "default" "my-kong-file" page
      list_cache-IsCache portal-IsFilesApi 6 (scene page down_portal) back_world "content/about.txt"
      (page-IsLive page down_portal refl) refl refusals sent elsewhere
