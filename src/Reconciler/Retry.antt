-- ===== src/Reconciler/Retry.antt =====
-- An object that Kong refuses for a while: the requests are repeated until Kong accepts it.
use kong_portal_controller.Proxy.Interface.{cached_proxy}
use kong_portal_controller.Base.{
  ℕ, String, ◌≡◌, refl, ◌≢◌, false, none, some, Option, true, arith, Error, returns, string_eq,
  nat_eq,
}
use kong_portal_controller.Api.{KongFile}
use kong_portal_controller.Build.{build}
use kong_portal_controller.Service
use kong_portal_controller.Service.Client.{KongClient, IsFilesApi}
use kong_portal_controller.Store.Cache.{CacheLib, IsCache}
use kong_portal_controller.Proxy.Laws.{path_of, contents_of}
use kong_portal_controller.Reconciler.{KubeClient, World, ReconcileResult, done, reconcile}
use kong_portal_controller.Reconciler.Invariant.{key_of_file}
use kong_portal_controller.Reconciler.Sync.{IsLive, refused-retried, accepted-stored}

module _ (C : CacheLib) (K : KongClient) (R : KubeClient) (class namespace name : String)
    (obj : KongFile) where
  -- From the one world to the other Kong has refused the object at every attempt, and may have changed
  -- by itself in between.
  pub data Refusals (w : World (cached_proxy C K) R) : World (cached_proxy C K) R → Type 0 where
    no_attempt : Refusals w w
    attempt :
        {u v : World (cached_proxy C K) R} (now : ℕ) (e : Error)
        (reply : ReconcileResult × Option Error)
        → Refusals w u
        → (Service.update K (build obj) u.backend.server).0.1 ≡ some e
        → reconcile (cached_proxy C K) R now class namespace name u ≡ returns (reply, v)
        → Refusals w v
    kong_changed :
        {u : World (cached_proxy C K) R} (s : K.Server)
        → Refusals w u
        → Refusals w (record u { backend = record (u.backend) { server = s } })

  IsLive-cluster :
      (w v : World (cached_proxy C K) R)
      → v.cluster ≡ w.cluster
      → IsLive C K R class namespace name obj w
      → IsLive C K R class namespace name obj v
  IsLive-cluster w v same live = record {
    got = ground (arith, live.got, same);
    kept = live.kept;
    ours = live.ours;
  }

  Refusals-cluster :
      {w v : World (cached_proxy C K) R}
      → obj.status.validated ≡ false
      → IsLive C K R class namespace name obj w
      → Refusals w v
      → v.cluster ≡ w.cluster
  Refusals-cluster new live no_attempt = refl
  Refusals-cluster {w} new live (attempt {u} {v} now e reply before bad tried) =
      let same = Refusals-cluster new live before in
      let (u', refused, kept, server) =
        refused-retried C K R now class namespace name obj e u (IsLive-cluster w u same live) new
          bad in
      ground (arith, refused, tried, kept, same)
  Refusals-cluster new live (kong_changed s before) = Refusals-cluster new live before

  -- However often Kong has refused a new object, and whatever became of Kong meanwhile, the first attempt
  -- that Kong accepts publishes it: Kong has the built contents under the built path and no other file
  -- changes, the cache holds the object as the API server answered it, and the status that is written
  -- into the cluster, which no refused attempt has changed, says that the object is validated. The
  -- reply is the error of that write, if any.
  pub refused-published :
      (L : IsCache C) (A : IsFilesApi K) (now : ℕ) (w v : World (cached_proxy C K) R)
      (other : String)
      → IsLive C K R class namespace name obj w
      → obj.status.validated ≡ false
      → Refusals w v
      → (Service.update K (build obj) v.backend.server).0.1 ≡ none
      → other ≢ path_of (build obj)
      → let written =
          R.update_status (record obj { status = record { validated = true } }) w.cluster in
        (w' : World (cached_proxy C K) R) × (reconcile
            (cached_proxy C K)
            R
            now
            class
            namespace
            name
            v
          ≡ returns ((done, written.0.0), w'))
        × (A.contents_at w'.backend.server (path_of (build obj)) ≡ some (contents_of (build obj)))
        × (A.contents_at w'.backend.server other ≡ A.contents_at v.backend.server other)
        × (L.find w'.backend.cache (key_of_file obj) ≡ some v.memory.next)
        × (w'.memory.cell v.memory.next ≡ written.0.1)
        × (w'.cluster ≡ written.1)
  refused-published L A now w v other live new before fine apart =
      let same = Refusals-cluster new live before in
      let (w', ran, file, files, cached, held, cluster) =
        accepted-stored C K R L A now class namespace name obj v other
          (IsLive-cluster w v same live) new fine apart in
      (
        w',
        ground (arith, ran, same),
        file,
        files,
        cached,
        ground (arith, held, same),
        ground (arith, cluster, same),
      )
