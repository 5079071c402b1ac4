-- ===== src/Reconciler/Deletion.antt =====
-- Objects that are being deleted and that the cluster still has.
use kong_portal_controller.Base.{
  ℕ, String, ◌<◌, ◌≡◌, ◌≢◌, ◌↔◌, false, Option, none, some, arith, Error, returns, string_eq,
  nat_eq,
}
use kong_portal_controller.Api.{KongFile}
use kong_portal_controller.Build.{build}
use kong_portal_controller.Service
use kong_portal_controller.Service.Client.{KongClient, IsFilesApi}
use kong_portal_controller.Service.Files.{get-found}
use kong_portal_controller.Store.Cache.{CacheLib, Ref}
use kong_portal_controller.Proxy.{delete_object, object_exists}
use kong_portal_controller.Proxy.Interface.{cached_proxy}
use kong_portal_controller.Proxy.Laws.{build-path}
use kong_portal_controller.Reconciler.{
  KubeClient, World, ReconcileResult, done, again, reconcile, reconcile_found, reconcile_deleted,
}
use kong_portal_controller.Reconciler.Sync.{fetched}

module _ (C : CacheLib) (K : KongClient) (R : KubeClient) where
  -- The cluster has the object, and its deletion time has passed.
  pub record IsLeaving (now : ℕ) (namespace name : String) (obj : KongFile) (s : R.Cluster)
      : Type 0 where
    pub time : ℕ
    pub got : R.get namespace name s ≡ (none, obj)
    pub timed : obj.meta.deletion_timestamp ≡ some time
    pub set : R.is_zero (some time) ≡ false
    pub passed : time < now

  leaving-deleted :
      (now : ℕ) (class namespace name : String) (obj : KongFile) (w : World (cached_proxy C K) R)
      → IsLeaving now namespace name obj w.cluster
      → reconcile (cached_proxy C K) R now class namespace name w
        ≡ returns (reconcile_deleted (cached_proxy C K) R w.memory.next (fetched C K R obj w))
  unfolding reconcile reconcile_found
  leaving-deleted now class namespace name obj w leaving =
      ground (arith, leaving.got, leaving.timed, leaving.set, leaving.passed)

  deleted_reply :
      (A : IsFilesApi K) (r : Ref) (w : World (cached_proxy C K) R)
      → let (reply, w') = reconcile_deleted (cached_proxy C K) R r w in
        let f = build (w.memory.cell r) in
        let asked = Service.get K f w.backend.server in
        ((reply ≡ (again, none)) ↔ ((asked.0.1 ≡ none) × ((Service.delete K f asked.1).0.1 ≡ none)))
        × (reply ≢ (done, none))
        × (w'.cluster ≡ w.cluster)
  unfolding reconcile_deleted object_exists delete_object
  deleted_reply A r w = ground (
    arith,
    get-found K A (build (w.memory.cell r)) w.backend.server _ (build-path (w.memory.cell r)),
  )

  -- The cluster has an object whose deletion time has passed. Its reconciliation returns, and never
  -- reports that it is finished: the reply is an error or a request to repeat, and it is the latter
  -- exactly when Kong has both found and deleted the file. The cluster still has the object.
  pub deleted-unfinished :
      (A : IsFilesApi K) (now : ℕ) (class namespace name : String) (obj : KongFile)
      (w : World (cached_proxy C K) R)
      → IsLeaving now namespace name obj w.cluster
      → let asked = Service.get K (build obj) w.backend.server in
        let accepted = (asked.0.1 ≡ none) × ((Service.delete K (build obj) asked.1).0.1 ≡ none) in
        (reply : ReconcileResult × Option Error) × (w' : World (cached_proxy C K) R) × (reconcile
            (cached_proxy C K)
            R
            now
            class
            namespace
            name
            w
          ≡ returns (reply, w'))
        × ((reply ≡ (again, none)) ↔ accepted)
        × (reply ≢ (done, none))
        × (R.get namespace name w'.cluster ≡ (none, obj))
  deleted-unfinished A now class namespace name obj w leaving =
      let w₁ = fetched C K R obj w in
      let here : w₁.memory.cell w.memory.next ≡ obj = ground arith in
      let out = reconcile_deleted (cached_proxy C K) R w.memory.next w₁ in
      let (repeated, unfinished, cluster) = deleted_reply A w.memory.next w₁ in
      (
        out.0,
        out.1,
        leaving-deleted now class namespace name obj w leaving,
        ground (arith, repeated, here),
        unfinished,
        ground (arith, cluster, leaving.got),
      )
