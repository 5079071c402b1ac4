-- ===== src/Fixtures/Scenes.antt =====
-- The repository's sample resources cr-kongfile.yaml and cr-kongfile-spec.yaml, and worlds in which
-- the first one stands.
use kong_portal_controller.Proxy.Contract.{table_of}
use kong_portal_controller.Proxy.Interface.{cached_proxy}
use kong_portal_controller.Base.{
  ◌≡◌, refl, ap, Bool, true, false, none, [], ◌∷◌, message, returns, ◌==◌, string_eq, nat_eq,
  string_dec, ℕ_discrete, if◌then◌else◌,
}
use kong_portal_controller.Annotations.{lookup, matches_controller_class_name}
use kong_portal_controller.Api.{KongFile, ObjectMeta}
use kong_portal_controller.Build.{build}
use kong_portal_controller.Base.Text.{trim_space, is_space}
use kong_portal_controller.Service
use kong_portal_controller.Store.{key_of, key_func}
use kong_portal_controller.Store.Cache.{Memory}
use kong_portal_controller.Proxy.{update_object}
use kong_portal_controller.Proxy.Laws.{contents_of}
use kong_portal_controller.Reconciler.{World, done, reconcile, mark_validated}
use kong_portal_controller.Reconciler.Invariant.{IsCoherentWorld}
use kong_portal_controller.Reconciler.Sync.{IsLive}
use kong_portal_controller.Reconciler.Removal.{IsGone}
use kong_portal_controller.Fixtures.{list_cache, list_cache-IsCache}
use kong_portal_controller.Fixtures.Servers.{Portal, portal, cluster, blank_kong_file, serve}

abbrev pub page : KongFile
page = record {
  meta = record {
    namespace = "default";
    name = "my-kong-file";
    annotations = ("developer.konghq.com/controller.class", "kong") ∷ [];
    deletion_timestamp = none;
  };
  spec = record {
    layout = "data.html";
    path = "products";
    title = "test";
    name = "test.txt";
    content = "### this is my file content !";
    kind = "CONTENT";
  };
  status = record { validated = false };
}

abbrev pub Scene : Type 0
Scene = World (cached_proxy list_cache portal) cluster

abbrev pub empty_memory : Memory
empty_memory = record { next = 0; cell = λ r. blank_kong_file }

abbrev pub up_portal : Portal
up_portal = record { files = ("/files/content/about.txt", "about") ∷ []; up = true }

abbrev pub scene : KongFile → Portal → Scene
scene obj server = record {
  memory = empty_memory;
  backend = record { cache = []; server = server };
  cluster = (key_of "default" "my-kong-file", obj) ∷ [];
}

pub page-IsLive :
    (obj : KongFile) (server : Portal)
    → obj.meta ≡ page.meta
    → IsLive list_cache portal cluster "kong" "default" "my-kong-file" obj (scene obj server)
unfolding lookup string_dec matches_controller_class_name
page-IsLive obj server same = record {
  got = refl;
  kept = ap (λ (m : ObjectMeta). cluster.is_zero m.deletion_timestamp) same;
  ours = ap (λ (m : ObjectMeta). matches_controller_class_name m "kong") same;
}

pub sent : (Service.update portal (build page) up_portal).0.1 ≡ none
unfolding build Service.update serve string_dec Service.is_empty_string trim_space is_space
sent = refl

-- The page is in Kong and in the cache, and has left the cluster.
abbrev pub stored_memory : Memory
stored_memory = record { next = 1; cell = λ r. mark_validated page }

abbrev pub full_portal : Bool → Portal
full_portal up = record {
  files = ("/files/content/about.txt", "about") ∷ ("/files/content/products/test.txt", "old") ∷ [];
  up = up;
}

abbrev pub orphan : Bool → Scene
orphan up = record {
  memory = stored_memory;
  backend = record { cache = (key_of "default" "my-kong-file", 0) ∷ []; server = full_portal up };
  cluster = [];
}

pub gone : IsGone list_cache portal cluster "default" "my-kong-file" []
unfolding lookup string_dec
gone = record {
  failure = message "not found";
  left = blank_kong_file;
  answer = refl;
  not_found = refl;
}

-- The reply and the world of the first run.
abbrev pub first_world : Scene
first_world = record {
  memory = record {
    next = 1;
    cell = λ q. if q == 0 then mark_validated page else if q == 0 then page else blank_kong_file;
  };
  backend = record {
    cache = (key_of "default" "my-kong-file", 0) ∷ [];
    server = record {
      files =
          ("/files/content/about.txt", "about")
          ∷ ("/files/content/products/test.txt", contents_of (build page))
          ∷ [];
      up = true;
    };
  };
  cluster = (key_of "default" "my-kong-file", mark_validated page) ∷ [];
}

pub first_reply :
    reconcile
      (cached_proxy list_cache portal)
      cluster
      5
      "kong"
      "default"
      "my-kong-file"
      (scene page up_portal)
    ≡ returns ((done, none), first_world)
unfolding reconcile update_object lookup matches_controller_class_name string_dec ℕ_discrete build
    Service.update serve key_func Service.is_empty_string trim_space is_space
first_reply = refl

pub scene-IsCoherent :
    IsCoherentWorld
      (cached_proxy list_cache portal)
      (table_of list_cache portal list_cache-IsCache)
      cluster
      (scene page up_portal)
unfolding lookup
scene-IsCoherent k r e = cc

-- The sample resource cr-kongfile-spec.yaml, without its content.
abbrev pub specification : KongFile
specification = record {
  meta = record {
    namespace = "default";
    name = "my-kong-file-spec";
    annotations = ("developer.konghq.com/controller.class", "kong") ∷ [];
    deletion_timestamp = none;
  };
  spec = record {
    layout = "";
    path = "test/specs";
    title = "";
    name = "test.yaml";
    content = "asyncapi: 2.0.0";
    kind = "SPECIFICATION";
  };
  status = record { validated = false };
}
