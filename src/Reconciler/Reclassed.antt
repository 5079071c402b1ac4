-- ===== src/Reconciler/Reclassed.antt =====
-- Objects that leave the class of the controller, and the events of their watch.
use kong_portal_controller.Base.{
  ℕ, String, ◌≡◌, refl, ◌∙◌, true, false, none, arith, returns, string_eq, nat_eq,
}
use kong_portal_controller.Api.{KongFile, ObjectMeta}
use kong_portal_controller.Annotations.{matches_controller_class_name}
use kong_portal_controller.Annotations.Filter.{
  updated, deleted, controller_class_filter, filter-eq-matches,
}
use kong_portal_controller.Service.Client.{KongClient, IsFilesApi}
use kong_portal_controller.Store.Cache.{CacheLib}
use kong_portal_controller.Proxy.Interface.{cached_proxy}
use kong_portal_controller.Reconciler.{KubeClient, World, done, reconcile, reconcile_found}
use kong_portal_controller.Reconciler.Sync.{fetched}

module _ (C : CacheLib) (K : KongClient) (R : KubeClient) (A : IsFilesApi K) where
  -- The cluster has an object that is not being deleted and that does not carry the annotation of the
  -- class, for instance because an update has taken it away. The event of that update reaches the
  -- reconciler, which ends without an error and changes no file of Kong. The event of the object's
  -- deletion with this metadata does not reach it.
  pub reclassed-kept :
      (now : ℕ) (class namespace name : String) (old : ObjectMeta) (obj : KongFile)
      (w : World (cached_proxy C K) R) (q : String)
      → R.get namespace name w.cluster ≡ (none, obj)
      → R.is_zero obj.meta.deletion_timestamp ≡ true
      → matches_controller_class_name obj.meta class ≡ false
      → (controller_class_filter class false true (updated old obj.meta) ≡ true)
        × (controller_class_filter class false true (deleted obj.meta) ≡ false)
        × ((v : World (cached_proxy C K) R) × (reconcile
                (cached_proxy C K)
                R
                now
                class
                namespace
                name
                w
              ≡ returns ((done, none), v))
            × (A.contents_at v.backend.server q ≡ A.contents_at w.backend.server q))
  unfolding reconcile reconcile_found
  reclassed-kept now class namespace name old obj w q got kept other = (
    filter-eq-matches class (updated old obj.meta),
    filter-eq-matches class (deleted obj.meta) ∙ other,
    (fetched C K R obj w, ground (arith, got, kept, other), refl),
  )
