-- ===== src/Reconciler/Lifecycle.antt =====
-- The life of an object: it is created and sent to Kong, and then it is removed from the cluster.
use kong_portal_controller.Proxy.Contract.{table_of}
use kong_portal_controller.Proxy.Interface.{cached_proxy}
use kong_portal_controller.Base.{
  ℕ, String, ◌≡◌, sym, ap, ◌∙◌, false, none, some, arith, returns, string_dec, string_eq, nat_eq,
}
use mathlib.Core.Path.{subst}
use kong_portal_controller.Api.{KongFile}
use kong_portal_controller.Build.{build}
use kong_portal_controller.Service
use kong_portal_controller.Service.Client.{KongClient, IsFilesApi}
use kong_portal_controller.Store.{key_of}
use kong_portal_controller.Store.Cache.{CacheLib, IsCache, Memory, alloc}
use kong_portal_controller.Proxy.Laws.{path_of, contents_of, update_object-cache}
use kong_portal_controller.Reconciler.{KubeClient, World, done, again, reconcile, mark_validated}
use kong_portal_controller.Reconciler.Invariant.{
  key_of_file, KeepsNames, IsCoherentWorld, reconcile-IsCoherent,
}
use kong_portal_controller.Reconciler.Sync.{
  IsLive, accepted, reconcile-accepted, accepted-server, accepted-files,
}
use kong_portal_controller.Reconciler.Removal as Removal
use kong_portal_controller.Reconciler.Removal.{IsGone, reconcile-removed}

module _ (C : CacheLib) (K : KongClient) (R : KubeClient) (L : IsCache C) (A : IsFilesApi K)
    (N : KeepsNames R) where
  accepted-IsCoherent :
      (now : ℕ) (class namespace name : String) (obj : KongFile) (w : World (cached_proxy C K) R)
      → IsLive C K R class namespace name obj w
      → obj.status.validated ≡ false
      → (Service.update K (build obj) w.backend.server).0.1 ≡ none
      → IsCoherentWorld (cached_proxy C K) (table_of C K L) R w
      → IsCoherentWorld (cached_proxy C K) (table_of C K L) R (accepted C K R obj w)
  accepted-IsCoherent now class namespace name obj w live new fine ih =
      let (reply, same, keeps) =
        reconcile-IsCoherent (cached_proxy C K) (table_of C K L) R N now class namespace name w
          ih in
      let equal : reply.1 ≡ accepted C K R obj w =
        ground
          (arith, same, reconcile-accepted C K R now class namespace name obj w live new fine) in
      subst (IsCoherentWorld (cached_proxy C K) (table_of C K L) R) equal keeps

  accepted-held :
      (obj : KongFile) (w : World (cached_proxy C K) R)
      → let written = R.update_status (mark_validated obj) w.cluster in
        ((accepted C K R obj w).memory.cell w.memory.next ≡ written.0.1)
        × (L.find (accepted C K R obj w).backend.cache (key_of_file obj) ≡ some w.memory.next)
  accepted-held obj w =
      let mem : Memory = (alloc obj w.memory).1 in
      (
        ground arith,
        ground (arith, update_object-cache C K L mem w.memory.next w.backend (key_of_file obj)),
      )

  build-spec : (f g : KongFile) → f.spec ≡ g.spec → build f ≡ build g
  unfolding build
  build-spec f g e = ground (arith, e)

  -- The whole life of an object whose file Kong did not have, from a coherent cache and without a
  -- restart in between: it is created, Kong accepts it, and the API server, which renames no object,
  -- answers with its specification unchanged; then it is removed from the cluster, and Kong accepts
  -- that. After the creation Kong has the built contents under the built path; after the removal every
  -- file of Kong is as it was before the creation, and the cache has forgotten the object.
  pub created-then-removed :
      (now later : ℕ) (class namespace name : String) (obj : KongFile)
      (w : World (cached_proxy C K) R) (s : R.Cluster) (q : String)
      → IsCoherentWorld (cached_proxy C K) (table_of C K L) R w
      → IsLive C K R class namespace name obj w
      → key_of_file obj ≡ key_of namespace name
      → obj.status.validated ≡ false
      → A.contents_at w.backend.server (path_of (build obj)) ≡ none
      → let sent = Service.update K (build obj) w.backend.server in
        sent.0.1 ≡ none
        → (Service.delete K (build obj) sent.1).0.1 ≡ none
        → (R.update_status (mark_validated obj) w.cluster).0.1.spec ≡ obj.spec
        → IsGone C K R namespace name s
        → let P = cached_proxy C K in
          (w₁ w₂ : World P R) × (reconcile P R now class namespace name w
            ≡ returns ((done, (R.update_status (mark_validated obj) w.cluster).0.0), w₁))
          × (A.contents_at w₁.backend.server (path_of (build obj)) ≡ some (contents_of (build obj)))
          × (reconcile P R later class namespace name (record w₁ { cluster = s })
              ≡ returns ((again, none), w₂))
          × (A.contents_at w₂.backend.server q ≡ A.contents_at w.backend.server q)
          × (L.find w₂.backend.cache (key_of namespace name) ≡ none)
  created-then-removed now later class namespace name obj w s q ih live key new absent fine removed
        spec gone =
      let path : String = path_of (build obj) in
      let mem : Memory = (alloc obj w.memory).1 in
      let w₁ = accepted C K R obj w in
      let (held, listed) = accepted-held obj w in
      let same : build (w₁.memory.cell w.memory.next) ≡ build obj =
        ap build held ∙ build-spec _ obj spec in
      let (sent, stored, others, out) =
        reconcile-removed C K R L A later class namespace name w.memory.next
          (record w₁ { cluster = s }) gone
          (accepted-IsCoherent now class namespace name obj w live new fine ih)
          (ap (L.find w₁.backend.cache) (sym key) ∙ listed)
          (ground (arith, same, accepted-server C K R obj w, removed)) in
      let (has, kept) = accepted-files C K R A obj w fine in
      (
        w₁,
        Removal.removed C K R L namespace name gone.left w.memory.next (record w₁ { cluster = s }),
        reconcile-accepted C K R now class namespace name obj w live new fine,
        has,
        sent,
        elim (string_dec q path) [
          | yes e ↦ ground (arith, e, same, stored, absent)
          | no apart ↦ others q (λ e. apart (e ∙ ap path_of same)) ∙ kept q apart
        ],
        out,
      )
