-- ===== src/Reconciler/Health.antt =====
-- Passes of the controller while Kong and the API server accept what it sends.
use kong_portal_controller.Base.{
  ℕ, String, ◌≡◌, refl, none, List, [], ◌∷◌, arith, string_eq, nat_eq,
}
use mathlib.Core.List.{Memᴰ}
use kong_portal_controller.Proxy.Interface.{cached_proxy}
use kong_portal_controller.Api.{KongFile}
use kong_portal_controller.Build.{build}
use kong_portal_controller.Service
use kong_portal_controller.Service.Client.{KongClient, IsFilesApi}
use kong_portal_controller.Store.Cache.{CacheLib}
use kong_portal_controller.Reconciler.{KubeClient, World, done, mark_validated}
use kong_portal_controller.Reconciler.Sync.{
  fetched, accepted, reconcile-accepted, accepted-server, validated-skipped,
}
use kong_portal_controller.Reconciler.Pass.{
  IsApiServer, Pass, finished, request, AllNew, AllApart, IsCaughtUp,
}
use kong_portal_controller.Reconciler.CatchUp.{
  AllMarked, AllNew-tail, Pass-IsCaughtUp, passes-converge,
}

-- While Kong is up it accepts the files of these objects and stays up, and the API server accepts their
-- status.
pub record IsHealthy (K : KongClient) (R : KubeClient) (objs : List KongFile) : Type 1 where
  pub IsUp : K.Server → Type 0
  pub accepts :
      (obj : KongFile) (s : K.Server)
      → Memᴰ obj objs
      → IsUp s
      → ((Service.update K (build obj) s).0.1 ≡ none) × IsUp (Service.update K (build obj) s).1
  pub marks :
      (obj : KongFile) (s : R.Cluster)
      → Memᴰ obj objs
      → (R.update_status (mark_validated obj) s).0.0 ≡ none

module _ (C : CacheLib) (K : KongClient) (R : KubeClient) (class : String) (A : IsFilesApi K)
    (S : IsApiServer R) (now : ℕ) where
  abbrev healthy_tail :
      (obj : KongFile) (objs : List KongFile) → IsHealthy K R (obj ∷ objs) → IsHealthy K R objs
  healthy_tail obj objs health = record {
    IsUp = health.IsUp;
    accepts = λ o s m up. health.accepts o s (Memᴰ.tail m) up;
    marks = λ o s m. health.marks o s (Memᴰ.tail m);
  }

  new-Pass :
      (objs : List KongFile) (w : World (cached_proxy C K) R) (health : IsHealthy K R objs)
      → health.IsUp w.backend.server
      → AllNew C K R class objs w
      → AllApart objs
      → (u : World (cached_proxy C K) R) × Pass C K R class objs w u
  new-Pass [] w health up new apart = (w, finished)
  new-Pass (obj ∷ objs) w health up new (apart, rest) =
      let (live, fresh) = new obj (Memᴰ.head refl) in
      let (sent, still) = health.accepts obj w.backend.server (Memᴰ.head refl) up in
      let written = health.marks obj w.cluster (Memᴰ.head refl) in
      let w₁ = accepted C K R obj w in
      let (u, pass) =
        new-Pass objs w₁ (healthy_tail obj objs health) (rw (accepted-server C K R obj w) still)
          (AllNew-tail C K R class A S obj objs w live sent written apart new) rest in
      (
        u,
        request now done
            (ground (
              arith,
              written,
              reconcile-accepted C K R now class obj.meta.namespace obj.meta.name obj w live fresh
                  sent,
            ))
            pass,
      )

  idle-Pass :
      (objs : List KongFile) (w : World (cached_proxy C K) R)
      → AllMarked C K R class A S objs w
      → (v : World (cached_proxy C K) R) × Pass C K R class objs w v
  idle-Pass [] w marked = (w, finished)
  idle-Pass (obj ∷ objs) w marked =
      let live = marked obj (Memᴰ.head refl) in
      let w₁ = fetched C K R (mark_validated obj) w in
      let (v, pass) = idle-Pass objs w₁ (λ o m.
        let there = marked o (Memᴰ.tail m) in
        record { got = there.got; kept = there.kept; ours = there.ours }) in
      (
        v,
        request now done
            (validated-skipped C K R now class obj.meta.namespace obj.meta.name (mark_validated obj)
              w live refl)
            pass,
      )

  -- While Kong and the API server accept them, new objects are published: objects of the class that the
  -- cluster has, that are not being deleted nor validated, and no two of which share a name or a path.
  -- Over a lawful Admin API and API server, a pass over them is served without an error, and so is a second
  -- one. After the first pass Kong has the built contents of each under its path, the cluster says of
  -- each that it is validated, and no other file and no other object has changed; the second pass
  -- changes neither Kong, nor the cache, nor the cluster.
  pub healthy-converges :
      (objs : List KongFile) (w : World (cached_proxy C K) R) (health : IsHealthy K R objs)
      → health.IsUp w.backend.server
      → AllNew C K R class objs w
      → AllApart objs
      → (u v : World (cached_proxy C K) R) × Pass C K R class objs w u
        × Pass C K R class objs u v
        × IsCaughtUp C K R class A S objs w u
        × (v.backend ≡ u.backend)
        × (v.cluster ≡ u.cluster)
  healthy-converges objs w health up new apart =
      let (u, first) = new-Pass objs w health up new apart in
      let caught = Pass-IsCaughtUp C K R class A S objs w u new apart first in
      let marked : AllMarked C K R class A S objs u = λ obj m.
        let (live, fresh) = new obj m in
        record { got = caught.marked obj m; kept = live.kept; ours = live.ours } in
      let (v, second) = idle-Pass objs u marked in
      let (done_with, backend, cluster) =
        passes-converge C K R class A S objs w u v new apart first second in
      (u, v, first, second, done_with, backend, cluster)
