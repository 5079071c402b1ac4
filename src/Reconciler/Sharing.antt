-- ===== src/Reconciler/Sharing.antt =====
-- Two objects whose files have the same path.
use kong_portal_controller.Proxy.Contract.{table_of}
use kong_portal_controller.Proxy.Interface.{cached_proxy}
use kong_portal_controller.Base.{ℕ, String, ◌≡◌, ◌∙◌, ap, true, none, some, returns}
use kong_portal_controller.Api.{KongFile}
use kong_portal_controller.Build.{build}
use kong_portal_controller.Service
use kong_portal_controller.Service.Client.{KongClient, IsFilesApi}
use kong_portal_controller.Store.{key_of}
use kong_portal_controller.Store.Cache.{CacheLib, IsCache, Ref}
use kong_portal_controller.Proxy.Laws.{path_of}
use kong_portal_controller.Reconciler.{KubeClient, World, done, again, reconcile}
use kong_portal_controller.Reconciler.Invariant.{IsCoherentWorld}
use kong_portal_controller.Reconciler.Sync.{IsLive, fetched, validated-skipped}
use kong_portal_controller.Reconciler.Removal as Removal
use kong_portal_controller.Reconciler.Removal.{IsGone, reconcile-removed}

module _ (C : CacheLib) (K : KongClient) (R : KubeClient) (L : IsCache C) (A : IsFilesApi K) where
  -- One object is gone from the cluster, and a coherent cache holds it; another one stands there, belongs to the class, is
  -- validated, and its file has the same path. If Kong accepts the deletion of the first, the file of
  -- the second is gone from Kong, and the reconciliation of the second, which has nothing to do, leaves
  -- it so.
  pub shared-lost :
      (now later : ℕ) (class namespace name namespace' name' : String) (q : Ref) (obj : KongFile)
      (w : World (cached_proxy C K) R)
      → IsGone C K R namespace name w.cluster
      → IsCoherentWorld (cached_proxy C K) (table_of C K L) R w
      → L.find w.backend.cache (key_of namespace name) ≡ some q
      → (Service.delete K (build (w.memory.cell q)) w.backend.server).0.1 ≡ none
      → IsLive C K R class namespace' name' obj w
      → obj.status.validated ≡ true
      → path_of (build obj) ≡ path_of (build (w.memory.cell q))
      → let P = cached_proxy C K in
        (u v : World P R) × (reconcile P R now class namespace name w ≡ returns ((again, none), u))
        × (reconcile P R later class namespace' name' u ≡ returns ((done, none), v))
        × (A.contents_at v.backend.server (path_of (build obj)) ≡ none)
        × (R.get namespace' name' v.cluster ≡ (none, obj))
  shared-lost now later class namespace name namespace' name' q obj w gone ih present accepted live
        old same =
      let u = Removal.removed C K R L namespace name gone.left q w in
      let (ran, file, others, out) =
        reconcile-removed C K R L A now class namespace name q w gone ih present accepted in
      let live' : IsLive C K R class namespace' name' obj u = record {
        got = live.got;
        kept = live.kept;
        ours = live.ours;
      } in
      (
        u,
        fetched C K R obj u,
        ran,
        validated-skipped C K R later class namespace' name' obj u live' old,
        ap (A.contents_at u.backend.server) same ∙ file,
        live.got,
      )
