-- ===== src/Reconciler/Pass.antt =====
-- The controller catches up: a pass over new objects, each of which is served without an error.
use kong_portal_controller.Proxy.Interface.{cached_proxy}
use kong_portal_controller.Base.{
  ℕ, String, ◌≡◌, ◌≢◌, false, none, some, List, [], ◌∷◌, returns, string_eq, nat_eq,
}
use mathlib.Core.List.{Memᴰ}
use kong_portal_controller.Api.{KongFile}
use kong_portal_controller.Build.{build}
use kong_portal_controller.Service.Client.{KongClient, IsFilesApi}
use kong_portal_controller.Store.{key_of}
use kong_portal_controller.Store.Cache.{CacheLib}
use kong_portal_controller.Proxy.Laws.{path_of, contents_of}
use kong_portal_controller.Reconciler.{
  KubeClient, World, ReconcileResult, reconcile, mark_validated,
}
use kong_portal_controller.Reconciler.Invariant.{key_of_file}
use kong_portal_controller.Reconciler.Sync.{IsLive}

-- The API server: a write of the status that succeeds stores the object that was read with its new
-- status, and a write changes no other object. A read sees what the controller has written before: the
-- client of the manager reads from a cache, which is taken to have caught up.
pub record IsApiServer (R : KubeClient) : Type 0 where
  pub write_done :
      (obj old : KongFile) (s : R.Cluster)
      → R.get obj.meta.namespace obj.meta.name s ≡ (none, old)
      → obj.meta ≡ old.meta
      → obj.spec ≡ old.spec
      → (R.update_status obj s).0.0 ≡ none
      → R.get obj.meta.namespace obj.meta.name (R.update_status obj s).1 ≡ (none, obj)
  pub write_others :
      (obj : KongFile) (s : R.Cluster) (namespace name : String)
      → key_of namespace name ≢ key_of_file obj
      → R.get namespace name (R.update_status obj s).1 ≡ R.get namespace name s

module _ (C : CacheLib) (K : KongClient) (R : KubeClient) (class : String) where
  -- The requests for these objects are served in this order, none with an error.
  pub data Pass
      : List KongFile → World (cached_proxy C K) R → World (cached_proxy C K) R → Type 0 where
    finished : {w : World (cached_proxy C K) R} → Pass [] w w
    request :
        {u v w : World (cached_proxy C K) R} {objs : List KongFile} {obj : KongFile} (now : ℕ)
        (result : ReconcileResult)
        → reconcile (cached_proxy C K) R now class obj.meta.namespace obj.meta.name u
          ≡ returns ((result, none), v)
        → Pass objs v w
        → Pass (obj ∷ objs) u w

  -- The cluster holds this object, and it belongs to the class.
  abbrev pub Holds : KongFile → World (cached_proxy C K) R → Type 0
  Holds obj w = IsLive C K R class obj.meta.namespace obj.meta.name obj w

  -- Each of the objects is in the cluster and new.
  abbrev pub AllNew : List KongFile → World (cached_proxy C K) R → Type 0
  AllNew objs w = (obj : KongFile) → Memᴰ obj objs → Holds obj w × (obj.status.validated ≡ false)

-- No two of the objects share the name or the path of the built file.
abbrev pub AllApart : List KongFile → Type 0
AllApart [] = Unit
AllApart (obj ∷ objs) =
    ((o : KongFile)
      → Memᴰ o objs
      → (key_of_file o ≢ key_of_file obj) × (path_of (build o) ≢ path_of (build obj)))
    × AllApart objs

module _ (C : CacheLib) (K : KongClient) (R : KubeClient) (class : String) (A : IsFilesApi K)
    (S : IsApiServer R) where
  -- What a pass over the objects makes of the world.
  pub record IsCaughtUp (objs : List KongFile) (w v : World (cached_proxy C K) R) : Type 0 where
    pub stored :
        (obj : KongFile)
        → Memᴰ obj objs
        → A.contents_at v.backend.server (path_of (build obj)) ≡ some (contents_of (build obj))
    pub other_files :
        (q : String)
        → ((obj : KongFile) → Memᴰ obj objs → q ≢ path_of (build obj))
        → A.contents_at v.backend.server q ≡ A.contents_at w.backend.server q
    pub marked :
        (obj : KongFile)
        → Memᴰ obj objs
        → R.get obj.meta.namespace obj.meta.name v.cluster ≡ (none, mark_validated obj)
    pub other_objects :
        (namespace name : String)
        → ((obj : KongFile) → Memᴰ obj objs → key_of namespace name ≢ key_of_file obj)
        → R.get namespace name v.cluster ≡ R.get namespace name w.cluster
